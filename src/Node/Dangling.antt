-- ===== src/Node/Dangling.antt =====
-- The revocation of an expired space removes its output, and leaves its name pointing to it.
use spaced.Base.{
  ◌∙◌, sym, ap, ◌≡◌, refl, Bool-cases, inl, inr, bytes_eq, bytes_eq→eq, [], ◌++◌, some, ok, err,
  panic, ◌>>=◌, arith,
}
use spaced.Bitcoin.{Bitcoin, OutPoint}
use spaced.Keys.{Hash, KeyHasher, space_key, outpoint_key_of, to_be_bytes}
use spaced.Keys.Bytes.{IsHash}
use spaced.Keys.Kinds.{keys_distinct}
use spaced.Spaces.{FullSpaceOut, outpoint, expired}
use spaced.Store.{
  Spacedb, Codec, LiveSnapshot, remove_raw, get_space_outpoint, get_spaceout, get_space_info, get,
}
use spaced.Store.Overlay.{
  reads, get-reads, decoded, get_raw-insert_raw, get-ok-staged, get-remove_raw,
}
use spaced.Validate.{revoke}
use spaced.Node.{apply_update}

module _ (sdb : Spacedb) (codec : Codec) (btc : Bitcoin) (hash : KeyHasher) where
  -- The removal of an output does not touch what a name points to.
  space_key-remove :
      (h : Hash) (at : OutPoint) (s : LiveSnapshot sdb)
      → IsHash h
      → IsHash (hash (at.txid ++ to_be_bytes at.vout))
      → reads sdb codec (space_key h) (remove_raw (outpoint_key_of hash at) s)
        ≡ reads sdb codec (space_key h) s
  unfolding outpoint_key_of
  space_key-remove h at s v w =
      let k = outpoint_key_of hash at in
      elim (Bool-cases (bytes_eq (space_key h) k)) [
        | inl same ↦ absurd (
            (keys_distinct 0 h (hash (at.txid ++ to_be_bytes at.vout)) h v w).0
              (bytes_eq→eq (space_key h) k same))
        | inr other ↦ ground (arith, (get_raw-insert_raw sdb codec k (space_key h) [] s).1, other)
      ]

  -- When the revocation of an expired space has been applied to a state in which the name points to
  -- the output of the space, the lookup of the name panics: it still points to the output, which is
  -- gone. Hashes are of 32 bytes.
  pub expired_dangles :
      (h : Hash) (out : FullSpaceOut) (s s' : LiveSnapshot sdb)
      → IsHash h
      → IsHash (hash ((outpoint out).txid ++ to_be_bytes (outpoint out).vout))
      → (get_space_outpoint sdb codec hash (space_key h) s >>= λ (found, _). ok found)
        ≡ ok (some (outpoint out))
      → apply_update sdb codec btc hash (record { kind = revoke expired; output = out }) s ≡ ok s'
      → get_space_info sdb codec hash (space_key h) s' ≡ err panic
  unfolding apply_update spaced.Node.apply_revoke get_space_info get_space_outpoint get_spaceout
  expired_dangles h out s s' v w points done =
      let k = outpoint_key_of hash (outpoint out) in
      let same : remove_raw k s ≡ s' = cc in
      let points' : (get sdb codec codec.decode_outpoint (space_key h) (remove_raw k s)
            >>= λ (found, _). ok found)
          ≡ ok (some (outpoint out)) =
        get-reads sdb codec codec.decode_outpoint (space_key h) (remove_raw k s)
        ∙ ap (λ r. r >>= decoded sdb codec codec.decode_outpoint)
            (space_key-remove h (outpoint out) s v w)
        ∙ sym (get-reads sdb codec codec.decode_outpoint (space_key h) s)
        ∙ points in
      let (t, e, st) =
        get-ok-staged sdb codec codec.decode_outpoint (space_key h) (remove_raw k s) points' in
      rw (← same, e, get-remove_raw sdb codec codec.decode_spaceout k s t st) refl
