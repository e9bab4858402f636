-- ===== src/Vault/Crdt/Lww.antt =====
-- crates/misty-vault/src/crdt/lww.rs: the last-writer-wins register.
use misty.Prelude.{
  ◌≡◌, Bool, true, false, if◌then◌else◌, ok, err, lt, eq, gt, nat_ord, list_ord, pair_ord,
  option_ord, is_gt, max_of, Eq, arith, String,
}
use misty.Vault.Error.{VaultResult, clock_collision}
use misty.Vault.Hlc.Order.{Hlc, hlc_ord, cmp_hlc}

pub record Lww {ℓ} (A : Type ℓ) : Type ℓ where
  pub value : A
  pub hlc : Hlc

module _ {ℓ} {A : Type ℓ} where
  -- `Lww::new`
  abbrev pub lww : A → Hlc → Lww A
  lww value hlc = record { value = value; hlc = hlc }

  -- `Lww::set`: a write that is not later is dropped. The flag says whether it took effect.
  unfoldable pub set : A → Hlc → Lww A → Lww A × Bool
  set value hlc r =
      if is_gt hlc r.hlc then (record { value = value; hlc = hlc }, true) else (r, false)

  module _ ⦃e : Eq A⦄ where
    -- `<Lww as Merge>::merge`
    unfoldable pub merge : Lww A → Lww A → String → VaultResult (Lww A)
    merge self other field = elim (cmp_hlc other.hlc self.hlc) [
      | gt ↦ ok (record { value = other.value; hlc = other.hlc })
      | lt ↦ ok self
      | eq ↦ if e.beq self.value other.value then ok self else err (clock_collision field)
    ]

    -- One clock names one write.
    abbrev pub Agree : Lww A → Lww A → Type ℓ
    Agree a b = a.hlc ≡ b.hlc → a.value ≡ b.value

    -- The register that was written later.
    pub later : Lww A → Lww A → Lww A
    later a b = if is_gt b.hlc a.hlc then b else a

    pub merge-later : (a b : Lww A) (f : String) → Agree a b → merge a b f ≡ ok (later a b)
    unfolding merge later
    merge-later a b f h =
        ground (arith, hlc_ord.eq_of_cmp b.hlc a.hlc, e.beq_iff a.value b.value, h)

    -- Merging two registers gives the same register, or the same error, in either order.
    pub merge_comm : (a b : Lww A) (f : String) → merge a b f ≡ merge b a f
    unfolding merge
    merge_comm a b f = ground (
      arith,
      hlc_ord.eq_of_cmp b.hlc a.hlc,
      hlc_ord.cmp_flip b.hlc a.hlc,
      e.beq_iff a.value b.value,
      e.beq_iff b.value a.value,
    )

    pub merge_idem : (a : Lww A) (f : String) → merge a a f ≡ ok a
    unfolding merge
    merge_idem a f = ground (arith, hlc_ord.cmp_refl a.hlc, e.beq_iff a.value a.value)

    pub later_assoc : (a b c : Lww A) → later (later a b) c ≡ later a (later b c)
    unfolding later
    later_assoc a b c = ground (
      arith,
      hlc_ord.cmp_flip a.hlc b.hlc,
      hlc_ord.cmp_flip b.hlc c.hlc,
      hlc_ord.cmp_flip a.hlc c.hlc,
      hlc_ord.eq_of_cmp a.hlc b.hlc,
      hlc_ord.eq_of_cmp b.hlc c.hlc,
      hlc_ord.eq_of_cmp a.hlc c.hlc,
      hlc_ord.lt_trans a.hlc b.hlc c.hlc,
      hlc_ord.lt_trans c.hlc b.hlc a.hlc,
    )

    pub Agree-later_left : (a b c : Lww A) → Agree a c → Agree b c → Agree (later a b) c
    unfolding later
    Agree-later_left a b c p q h = ground (arith, p, q)

    pub Agree-later_right : (a b c : Lww A) → Agree a b → Agree a c → Agree a (later b c)
    unfolding later
    Agree-later_right a b c p q h = ground (arith, p, q)

    -- The surviving clock is the later of the two.
    pub hlc-later : (a b : Lww A) → (later a b).hlc ≡ max_of a.hlc b.hlc
    unfolding later max_of
    hlc-later a b = ground (arith, hlc_ord.cmp_flip a.hlc b.hlc, hlc_ord.eq_of_cmp a.hlc b.hlc)
