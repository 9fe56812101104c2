-- ===== src/Generator/Batch/Distinct.antt =====
-- No transaction of a run is a copy of another one.
use shardingsim.Prelude.{ℕ, ◌^◌, ◌<◌, ◌≡◌, ◌≢◌, ap, ◌∙◌, sym, some, arith, ℤ}
use shardingsim.Transaction.{Transaction}
use shardingsim.Transaction.Layout.{signing_bytes}
use shardingsim.Transaction.Layout.Laws.{signing_bytes_iff}
use shardingsim.Generator.{nonce_of}
use shardingsim.Generator.Batch.{Job, create_at}
use shardingsim.Generator.Batch.Laws.{IsJob, created}

nonce_of-injective :
    (base : ℤ) (i j : ℕ) → i < 2 ^ 64 → j < 2 ^ 64 → nonce_of base i ≡ nonce_of base j → i ≡ j
unfolding nonce_of
nonce_of-injective base i j hi hj e = omega (arith, e)

-- Transactions at different indices, whichever threads make them and whatever the first nonce is, have
-- different nonces and do not hash the same bytes.
pub signing_bytes-distinct :
    (job : Job) (tid other i j : ℕ) (tx copy : Transaction)
    → IsJob job
    → i < job.total_count
    → j < job.total_count
    → i ≢ j
    → create_at job tid i ≡ some tx
    → create_at job other j ≡ some copy
    → (tx.nonce ≢ copy.nonce) × (signing_bytes tx ≢ signing_bytes copy)
signing_bytes-distinct job tid other i j tx copy h hi hj apart made remade =
    let (t, t_made, t_well, t_nonce) = created job tid h i in
    let (u, u_made, u_well, u_nonce) = created job other h j in
    let t_is : tx ≡ t = cc in
    let u_is : copy ≡ u = cc in
    let fits = h.sum_fits in
    let nonces : tx.nonce ≢ copy.nonce = λ e. apart (
      nonce_of-injective job.base_nonce i j (omega arith) (omega arith) (
        sym t_nonce
        ∙ ap (λ (v : Transaction). v.nonce) (sym t_is)
        ∙ e
        ∙ ap (λ (v : Transaction). v.nonce) u_is
        ∙ u_nonce)) in
    (
      nonces,
      λ e. nonces (
          ap (λ (v : Transaction). v.nonce)
            ((signing_bytes_iff tx copy (rw t_is t_well) (rw u_is u_well)).0 e)),
    )
