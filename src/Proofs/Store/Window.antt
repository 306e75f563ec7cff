-- ===== src/Proofs/Store/Window.antt =====
-- The window of crates/proofs/src/db/store.rs, from its earliest block and its latest.
use morph_reth.Common.{◌≡◌, Option, none, some, or_else}
use morph_reth.Proofs.Api.{BlockNumHash}
use morph_reth.Proofs.Tables.{Database}
use morph_reth.Proofs.Store.{
  Tables, window_of, inner_get_latest_block_number_hash, inner_get_proof_window,
}

window_of_lem :
    (earliest latest : Option BlockNumHash) (e l : BlockNumHash)
    → earliest ≡ some e
    → or_else latest earliest ≡ some l
    → window_of earliest latest ≡ some (record { earliest = e; latest = l })
window_of_lem none latest e l he hl = cc
window_of_lem (some x) none e l he hl =
    let first : x ≡ e = cc in
    let last : x ≡ l = cc in λ i. some (record { earliest = first i; latest = last i })
window_of_lem (some x) (some y) e l he hl =
    let first : x ≡ e = cc in
    let last : y ≡ l = cc in λ i. some (record { earliest = first i; latest = last i })

pub inner_get_proof_window_lem :
    {db : Database} (s : Tables db) (e l : BlockNumHash)
    → s.earliest_block ≡ some e
    → inner_get_latest_block_number_hash s ≡ some l
    → inner_get_proof_window s ≡ some (record { earliest = e; latest = l })
unfolding inner_get_latest_block_number_hash inner_get_proof_window
inner_get_proof_window_lem s e l he hl = window_of_lem s.earliest_block s.latest_block e l he hl
