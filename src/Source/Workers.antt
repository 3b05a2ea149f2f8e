-- ===== src/Source/Workers.antt =====
-- The workers of a block fetcher: blocks are fetched in any order and emitted in that of the chain.
-- What the thread pool and the channels answer are parameters: `stops` tells what the n-th read of the
-- shared job gives, `received` what has arrived, and `listening` whether the receiver is still there.
use spaced.Validate.{add_u32}
use spaced.Source.{called, failed_fetch, RpcResult}
use spaced.Node.Block.{Block}
use spaced.Base.{
  ◌++◌, ◌+◌, block_mismatch, bytes_eq, channel_closed, true, some, ◌==◌, false, err, not,
  if◌then◌else◌, ◌&&◌, ◌>>=◌, ok, length, Result, none, ◌∷◌, ltb, Option, [], Bool, ChainAnchor, ℕ,
  List,
}

-- A block that was fetched, with its hash and height.
pub record Fetched : Type 0 where
  pub id : ChainAnchor
  pub block : Block

-- `out_of_order`, a map from heights
abbrev pub Unordered : Type 0
Unordered = List (ℕ × Fetched)

-- `BTreeMap::remove`: the map without a key.
unfoldable pub remove_key : ℕ → Unordered → Unordered
remove_key k [] = []
remove_key k ((j, v) ∷ m) = let rest = remove_key k m in if k == j then rest else (j, v) ∷ rest

-- `BTreeMap::insert`
abbrev pub insert_key : ℕ → Fetched → Unordered → Unordered
insert_key k v m = (k, v) ∷ remove_key k m

unfoldable pub find_key : ℕ → Unordered → Option Fetched
find_key k [] = none
find_key k ((j, v) ∷ m) = if k == j then some v else find_key k m

-- `Workers`, with the blocks that have been sent, the newest at the end.
pub record Workers : Type 0 where
  pub out_of_order : Unordered
  pub last_emitted : ChainAnchor
  pub queued_height : ℕ
  pub end_height : ℕ
  pub num_workers : ℕ
  pub sent : List Fetched

-- The workers that `BlockFetcher::run_workers` makes.
abbrev pub new_workers : ChainAnchor → ℕ → ℕ → Workers
new_workers start_block end_height num_workers = record {
  out_of_order = [];
  last_emitted = start_block;
  queued_height = add_u32 start_block.height 1;
  end_height = end_height;
  num_workers = num_workers;
  sent = [];
}

-- `Workers::queued_all`
abbrev pub queued_all : Workers → Bool
queued_all w = ltb w.end_height w.queued_height

-- `Workers::can_add_workers`, with the count of the pool.
abbrev pub can_add_workers : ℕ → Workers → Bool
can_add_workers queued_count w =
    ltb (length w.out_of_order) w.num_workers
    && ltb queued_count w.num_workers
    && not (queued_all w)

-- The loop that takes what has arrived.
unfoldable pub collect : (ℕ → Bool) → ℕ → List (RpcResult Fetched) → Unordered → Result Unordered
collect stops n [] m = ok m
collect stops n (unordered_block ∷ received) m =
    if stops n
    then err (failed_fetch channel_closed)
    else called unordered_block >>= λ fetched.
        collect stops (n + 1) received (insert_key fetched.id.height fetched m)

-- The emission of a block at the next height.
unfoldable pub emit : Bool → Bool → Fetched → Workers → Result Workers
emit stopped listening fetched w =
    if stopped
    then err (failed_fetch channel_closed)
    else if not (bytes_eq fetched.block.prev_blockhash w.last_emitted.hash)
    then err (failed_fetch block_mismatch)
    else if listening
    then ok (record w { last_emitted = fetched.id; sent = w.sent ++ (fetched ∷ []) })
    else err (failed_fetch channel_closed)

-- `Workers::try_emit_next_block`: whether a block was emitted.
unfoldable pub try_emit_next_block :
    (ℕ → Bool) → Bool → List (RpcResult Fetched) → Workers → Result (Bool × Workers)
try_emit_next_block stops listening received w = collect stops 0 received w.out_of_order >>= λ m.
    let next = add_u32 w.last_emitted.height 1 in
    if ltb w.end_height next
    then ok (false, record w { out_of_order = m })
    else elim (find_key next m) [
      | none ↦ ok (false, record w { out_of_order = m })
      | some fetched ↦
          emit (stops (length received)) listening fetched
            (record w { out_of_order = remove_key next m })
          >>= λ w'. ok (true, w')
    ]
