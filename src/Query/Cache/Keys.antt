-- ===== src/Query/Cache/Keys.antt =====
-- The keys and the write versions of crates/query/src/cache.rs.
use dllb.Common.{
  ℕ, suc, ◌%◌, ◌^◌, [], ◌∷◌, true, Option, none, some, ◌≡◌, refl, arith, beq_iff, beq_refl, ◌↔◌,
  if◌then◌else◌, ap,
}
use dllb.Query.Ast.{OutcomeFormat, json, toon, csv}
use dllb.Query.Cache.{
  TableKey, table_beq, WriteVersions, version_of, bump_key, CacheKind, communities_kind,
  components_kind, pagerank_kind, centrality_kind, CacheKey, limit_beq, kind_beq, outcome_beq,
  key_beq,
}

limit_beq_lem : (a b : Option ℕ) → limit_beq a b ≡ true → a ≡ b
limit_beq_lem none none h = refl
limit_beq_lem (some a) (some b) h = ap some (ground arith)
limit_beq_lem none (some b) h = absurd (ground arith)
limit_beq_lem (some a) none h = absurd (ground arith)

limit_beq_refl : (a : Option ℕ) → limit_beq a a ≡ true
limit_beq_refl none = refl
limit_beq_refl (some a) = ground arith

pub table_beq_lem : (a b : TableKey) → table_beq a b ≡ true → a ≡ b
unfolding table_beq
table_beq_lem a b h = ground (arith, beq_iff a.ns b.ns, beq_iff a.db b.db, beq_iff a.table b.table)

table_beq_refl : (a : TableKey) → table_beq a a ≡ true
unfolding table_beq
table_beq_refl a = ground (arith, beq_refl a.ns, beq_refl a.db, beq_refl a.table)

kind_beq_lem : (a b : CacheKind) → kind_beq a b ≡ true → a ≡ b
kind_beq_lem (communities_kind a m r) (communities_kind b n s) h = ground (arith, beq_iff a b)
kind_beq_lem components_kind components_kind h = refl
kind_beq_lem (pagerank_kind d m l) (pagerank_kind e n k) h = ground (arith, limit_beq_lem l k)
kind_beq_lem (centrality_kind a l) (centrality_kind b k) h =
    ground (arith, beq_iff a b, limit_beq_lem l k)
kind_beq_lem _ _ h = absurd (ground arith)

kind_beq_refl : (a : CacheKind) → kind_beq a a ≡ true
kind_beq_refl (communities_kind a m r) = ground (arith, beq_refl a)
kind_beq_refl components_kind = refl
kind_beq_refl (pagerank_kind d m l) = ground (arith, limit_beq_refl l)
kind_beq_refl (centrality_kind a l) = ground (arith, beq_refl a, limit_beq_refl l)

outcome_beq_lem : (a b : OutcomeFormat) → outcome_beq a b ≡ true → a ≡ b
outcome_beq_lem json json h = refl
outcome_beq_lem toon toon h = refl
outcome_beq_lem csv csv h = refl
outcome_beq_lem _ _ h = absurd (ground arith)

outcome_beq_refl : (a : OutcomeFormat) → outcome_beq a a ≡ true
outcome_beq_refl json = refl
outcome_beq_refl toon = refl
outcome_beq_refl csv = refl

pub key_beq_iff : (a b : CacheKey) → (key_beq a b ≡ true) ↔ (a ≡ b)
unfolding key_beq
key_beq_iff a b = (
  λ h. ground (
    arith,
    beq_iff a.ns b.ns,
    beq_iff a.db b.db,
    beq_iff a.table b.table,
    kind_beq_lem a.kind b.kind,
    outcome_beq_lem a.outcome b.outcome,
  ),
  λ e. rw e (
      ground (
        arith,
        beq_refl b.ns,
        beq_refl b.db,
        beq_refl b.table,
        kind_beq_refl b.kind,
        outcome_beq_refl b.outcome,
      )),
)

-- A bump of one table counts it and no other.
pub version_of-bump_key :
    (t u : TableKey) (versions : WriteVersions)
    → version_of u (bump_key t versions)
      ≡ (if table_beq t u then suc (version_of u versions) % 2 ^ 64 else version_of u versions)
version_of-bump_key t u [] = ground (arith)
version_of-bump_key t u ((w, v) ∷ versions) = ground (
  arith,
  version_of-bump_key t u versions,
  table_beq_lem w t,
  table_beq_lem w u,
  table_beq_lem t u,
  table_beq_refl t,
)
