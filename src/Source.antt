-- ===== src/Source.antt =====
-- node/src/source.rs: the client of the bitcoin node, which repeats failed calls, the test whether
-- the chain has advanced, and the decoding of blocks. What a call answers is a parameter.
pub mod Retries
pub mod Awaited
pub mod Hex
pub mod Workers
pub mod Emitted
use spaced.Keys.{modify}
use spaced.Base.{
  JsonRpcError, other, negsuc, pos, rpc, [], ◌∷◌, any, ◌%◌, invalid_hex_character, bit_or, false,
  not, true, zero, ◌*◌, block_mismatch, bytes_eq, ◌-◌, take, ◌||◌, ◌&&◌, ◌+◌, index, some,
  rpc_error, ltb, ◌/◌, err, suc, ◌==◌, ◌>>=◌, fetch_error, inr, transport, expect, leb, Option,
  Fault, if◌then◌else◌, ok, inl, ◌⊎◌, Bool, length, none, List, ChainAnchor, BitcoinRpcError,
  BlockFetchError, Result, ℕ,
}

-- The result of a call.
abbrev pub RpcResult : Type 0 → Type 0
RpcResult A = BitcoinRpcError ⊎ A

-- `BitcoinRpcError::is_temporary`
unfoldable pub is_temporary : BitcoinRpcError → Bool
is_temporary (transport e) = if e.is_timeout || e.is_connect then true else elim e.status [
  | none ↦ false
  | some status ↦ any (λ code. status == code) (408 ∷ 429 ∷ 500 ∷ 502 ∷ 503 ∷ 504 ∷ [])
]
is_temporary (rpc e) = elim e.code [ pos _ ↦ false | negsuc n ↦ n == 27 || n == 9 || n == 8 ]
is_temporary (other _) = false

abbrev pub max_retries : ℕ
max_retries = 10

module _ {Response : Type 0} (send : ℕ → RpcResult Response)
    (clean_rpc_response : Response → RpcResult Response) where
  -- The loop over the attempts, with how many are left.
  unfoldable pub send_from : ℕ → ℕ → Option BitcoinRpcError → Result (RpcResult Response)
  send_from zero attempt last_error = expect last_error >>= λ e. ok (inl e)
  send_from (suc left) attempt last_error = elim (send attempt) [
    | inr res ↦ ok (clean_rpc_response res)
    | inl e ↦
        let rest = send_from left (attempt + 1) (some e) in
        if is_temporary e && ltb attempt (max_retries - 1) then rest else ok (inl e)
  ]

  -- `BitcoinRpc::send_request_blocking`, and `send_request`.
  abbrev pub send_request : Result (RpcResult Response)
  send_request = send_from max_retries 0 none

-- `JsonRpcResponse<T>`, the reply of the node, whose id is not read.
pub record JsonRpcResponse (A : Type 0) : Type 0 where
  pub result : Option A
  pub error : Option JsonRpcError

-- `error_for_rpc`, on what the reply parses to. A reply without an error must have a result.
unfoldable pub error_for_rpc : {A : Type 0} → RpcResult (JsonRpcResponse A) → Result (RpcResult A)
error_for_rpc (inl e) = ok (inl e)
error_for_rpc (inr reply) = elim reply.error [
  | some e ↦ ok (inl (rpc e))
  | none ↦ expect reply.result >>= λ result. ok (inr result)
]

-- The loop of `BitcoinRpc::broadcast_tx` over the replies to `getmempoolentry`: the time of the entry,
-- where it has one.
unfoldable pub await_entry :
    (ℕ → RpcResult (JsonRpcResponse (Option ℕ)))
    → ℕ
    → ℕ
    → Option BitcoinRpcError
    → Result (RpcResult ℕ)
await_entry entry zero retry_count last_error = expect last_error >>= λ e. ok (inl e)
await_entry entry (suc left) retry_count last_error = error_for_rpc (entry retry_count) >>= λ res.
    elim res [
      | inr found ↦ elim found [
        | some time ↦ ok (inr time)
        | none ↦ await_entry entry left (retry_count + 1) last_error
      ]
      | inl e ↦ await_entry entry left (retry_count + 1) (some e)
    ]

-- `BitcoinRpc::broadcast_tx`, with the reply to `sendrawtransaction`.
unfoldable pub broadcast_tx :
    RpcResult (JsonRpcResponse (List ℕ))
    → (List ℕ → ℕ → RpcResult (JsonRpcResponse (Option ℕ)))
    → Result (RpcResult ℕ)
broadcast_tx sent entry = error_for_rpc sent >>= λ res. elim res [
  | inl e ↦ ok (inl e)
  | inr txid ↦ await_entry (entry txid) max_retries 0 none
]

abbrev pub failed_fetch : BlockFetchError → Fault
failed_fetch e = fetch_error e

-- A failed call ends a fetch.
abbrev pub called : {A : Type 0} → RpcResult A → Result A
called (inl e) = err (failed_fetch (rpc_error e))
called (inr a) = ok a

abbrev pub anchor_eq : ChainAnchor → ChainAnchor → Bool
anchor_eq a b = a.height == b.height && bytes_eq a.hash b.hash

-- `BlockFetcher::should_sync`
unfoldable pub should_sync :
    RpcResult ChainAnchor → (ℕ → RpcResult (List ℕ)) → ChainAnchor → Result (Option ChainAnchor)
should_sync best_chain get_block_hash start = called best_chain >>= λ tip.
    if ltb tip.height start.height
    then err (failed_fetch block_mismatch)
    else (called (get_block_hash start.height) >>= λ start_hash.
        if not (bytes_eq start.hash start_hash)
        then err (failed_fetch block_mismatch)
        else if anchor_eq tip start
        then ok none
        else ok (some tip))

-- `val`: the value of a digit.
unfoldable pub val : ℕ → ℕ → Result ℕ
val c idx =
    if leb 65 c && leb c 70
    then ok (c - 65 + 10)
    else if leb 97 c && leb c 102
    then ok (c - 97 + 10)
    else if leb 48 c && leb c 57
    then ok (c - 48)
    else err (invalid_hex_character c idx)

-- `data[i] = byte`
abbrev pub store_at : ℕ → ℕ → List ℕ → List ℕ
store_at i byte xs = modify i (λ _. byte) xs

-- The loop of `hex_to_bytes`, which writes over the digits that it has read.
unfoldable pub hex_from : ℕ → ℕ → List ℕ → Result (List ℕ)
hex_from zero i hex_data = ok hex_data
hex_from (suc left) i hex_data = index hex_data (2 * i) >>= λ c. val c (2 * i) >>= λ high.
    index hex_data (2 * i + 1) >>= λ d. val d (2 * i + 1) >>= λ low.
    hex_from left (i + 1) (store_at i (bit_or (high * 16 % 256) low) hex_data)

-- `hex_to_bytes`
unfoldable pub hex_to_bytes : List ℕ → Result (List ℕ)
hex_to_bytes hex_data =
    hex_from (length hex_data / 2) 0 hex_data >>= λ decoded. ok (take (length hex_data / 2) decoded)
