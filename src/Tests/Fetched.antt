-- ===== src/Tests/Fetched.antt =====
-- The theorems on the block source at concrete inputs.
use spaced.Source.Retries.{Stops, Settles, broadcast_tx-panics_iff, send_request-Settles}
use spaced.Source.Hex.{hex_to_bytes-digits, digits}
use spaced.Source.Emitted.{begun, emission, Run, Run-Emits, Linked}
use spaced.Source.Workers.{
  remove_key, find_key, emit, collect, new_workers, Workers, Fetched, try_emit_next_block,
}
use spaced.Base.{
  some, true, false, refl, ◌↔◌, panic, err, inl, ok, negsuc, ◌==◌, none, ◌≡◌, [], if◌then◌else◌,
  rpc, inr, ◌∷◌, Option, List, ℕ, ChainAnchor, BitcoinRpcError,
}
use spaced.Source.{JsonRpcResponse, send_request, RpcResult, hex_to_bytes, broadcast_tx}

-- A call that fails once with a warm-up error and then succeeds.
abbrev warm_up : BitcoinRpcError
warm_up = rpc (record { code = negsuc 27; message = "" })

abbrev second_try : ℕ → RpcResult ℕ
second_try n = if n == 0 then inl warm_up else inr 7

send_request-Settles_example :
    (r : RpcResult ℕ) × (send_request second_try (λ res. inr res) ≡ ok r)
    × Settles second_try (λ res. inr res) 0 10 r
send_request-Settles_example = send_request-Settles second_try (λ res. inr res)

abbrev accepted : RpcResult (JsonRpcResponse (List ℕ))
accepted = inr (record { result = some (1 ∷ []); error = none })

abbrev no_time : List ℕ → ℕ → RpcResult (JsonRpcResponse (Option ℕ))
no_time txid n = inr (record { result = some none; error = none })

broadcast_tx-panics_iff_example :
    (broadcast_tx accepted no_time ≡ err panic) ↔ Stops accepted no_time
broadcast_tx-panics_iff_example = broadcast_tx-panics_iff accepted no_time

abbrev start_block : ChainAnchor
start_block = record { hash = 1 ∷ []; height = 10 }

abbrev block_11 : Fetched
block_11 = record {
  id = record { hash = 2 ∷ []; height = 11 };
  block = record { prev_blockhash = 1 ∷ []; txdata = [] };
}

abbrev begun_workers : Workers
begun_workers = new_workers start_block 12 2

abbrev emitted_workers : Workers
emitted_workers = record begun_workers { last_emitted = block_11.id; sent = block_11 ∷ [] }

one-Run : Run start_block 12 2 emitted_workers
unfolding try_emit_next_block collect emit find_key remove_key spaced.Base.Tests.bytes_eq
one-Run =
    emission (λ n. false) true (inr block_11 ∷ []) true begun_workers emitted_workers begun refl

Run-Emits_example : Linked start_block (block_11 ∷ []) block_11.id
Run-Emits_example = Run-Emits start_block 12 2 emitted_workers one-Run

hex_to_bytes-digits_example : hex_to_bytes (digits (0xab ∷ 7 ∷ [])) ≡ ok (0xab ∷ 7 ∷ [])
hex_to_bytes-digits_example = hex_to_bytes-digits (0xab ∷ 7 ∷ []) refl
