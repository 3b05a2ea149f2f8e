-- ===== src/Tests/Stored.antt =====
-- The theorems on encodings, the store and the node at concrete inputs.
use spaced.Base.{
  ℕ, ◌≡◌, refl, List, [], ◌∷◌, Option, none, some, ok, err, panic, if◌then◌else◌, bytes_eq,
  replicate,
}
use spaced.Bitcoin.{OutPoint}
use spaced.Label.Owned.{buffer}
use spaced.Keys.{Hash, space_key, outpoint_key_of}
use spaced.Spaces.{SpaceOut, FullSpaceOut, transfer, outpoint}
use spaced.Store.{
  Spacedb, Codec, LiveSnapshot, insert_raw, remove_raw, insert_space, insert_spaceout,
  get_space_outpoint, get_space_info, memory_insert,
}
use spaced.Store.Overlay.{reads, get_raw-insert_raw}
use spaced.Node.{apply_update}
use spaced.Node.Dangling.{expired_dangles}
use spaced.Tests.Data.{toy, toy_hash, text_ab, script_34}

-- A database that is a list of entries.
abbrev pub entry_at : List (Hash × List ℕ) → Hash → Option (List ℕ)
entry_at [] key = none
entry_at ((k, v) ∷ m) key = if bytes_eq key k then some v else entry_at m key

abbrev pub without : Hash → List (Hash × List ℕ) → List (Hash × List ℕ)
without key [] = []
without key ((k, v) ∷ m) =
    let rest = without key m in if bytes_eq key k then rest else (k, v) ∷ rest

abbrev pub toy_db : Spacedb
toy_db = record {
  Db = List (Hash × List ℕ);
  ReadTx = List (Hash × List ℕ);
  begin_read = λ db. ok db;
  metadata = λ tx. [];
  get = λ tx key. ok (entry_at tx key);
  iter = λ tx. [];
  WriteTx = List (Hash × List ℕ);
  begin_write = λ db. ok db;
  insert = λ tx key value. ok ((key, value) ∷ tx);
  delete = λ tx key. ok (without key tx);
  set_metadata = λ tx metadata. ok tx;
  commit = λ tx. ok tx;
  snapshots = λ db. ok db ∷ [];
  rollback = λ tx. ok tx;
}

abbrev pub toy_out : SpaceOut
toy_out = record {
  n = 1;
  space = some (record { name = buffer text_ab; covenant = transfer 100 none });
  value = 662;
  script_pubkey = script_34;
}

abbrev toy_outpoint : List ℕ → Option OutPoint
toy_outpoint [] = none
toy_outpoint (vout ∷ txid) = some (record { txid = txid; vout = vout })

abbrev pub toy_codec : Codec
toy_codec = record {
  encode_spaceout = λ out. out.n ∷ out.value ∷ [];
  decode_spaceout = λ bytes. some toy_out;
  encode_outpoint = λ at. at.vout ∷ at.txid;
  decode_outpoint = toy_outpoint;
  encode_key = λ key. key;
  encode_anchor = λ anchor. [];
  decode_anchor = λ bytes. some (record { hash = []; height = 0 });
}

-- A state over a database with one entry.
abbrev pub clean : LiveSnapshot toy_db
clean = record {
  db = (replicate 32 1, 8 ∷ []) ∷ [];
  tip = record { hash = []; height = 0 };
  staged = record { snapshot_version = 0; memory = [] };
  snapshot = (0, (replicate 32 1, 8 ∷ []) ∷ []);
}

get_raw-insert_raw_example :
    (reads toy_db toy_codec (replicate 32 1) (insert_raw (replicate 32 2) (9 ∷ []) clean)
      ≡ reads toy_db toy_codec (replicate 32 1) clean)
    × (reads toy_db toy_codec (replicate 32 1) (remove_raw (replicate 32 2) clean)
        ≡ reads toy_db toy_codec (replicate 32 1) clean)
unfolding spaced.Base.Tests.bytes_eq
get_raw-insert_raw_example =
    get_raw-insert_raw toy_db toy_codec (replicate 32 2) (replicate 32 1) (9 ∷ []) clean

abbrev expiring : FullSpaceOut
expiring = record { txid = 1 ∷ []; spaceout = toy_out }

abbrev hash_4 : Hash
hash_4 = replicate 32 4

-- The space under its name and its output.
abbrev holding : LiveSnapshot toy_db
holding =
    insert_spaceout toy_db toy_codec (outpoint_key_of toy_hash (outpoint expiring)) toy_out
      (insert_space toy_db toy_codec (space_key hash_4) (outpoint expiring) clean)

expired_dangles_example :
    get_space_info toy_db toy_codec toy_hash
      (space_key hash_4)
      (remove_raw (outpoint_key_of toy_hash (outpoint expiring)) holding)
    ≡ err panic
unfolding get_space_outpoint spaced.Store.get spaced.Store.get_raw apply_update
    spaced.Node.apply_revoke spaced.Store.memory_get insert_raw memory_insert
    spaced.Base.Tests.bytes_eq space_key outpoint_key_of spaced.Keys.outpoint_key
    spaced.Keys.Order.bytes_lt
expired_dangles_example =
    expired_dangles toy_db toy_codec toy toy_hash hash_4 expiring holding
      (remove_raw (outpoint_key_of toy_hash (outpoint expiring)) holding)
      (record { size = refl; bytes = refl }) (record { size = refl; bytes = refl }) refl refl
