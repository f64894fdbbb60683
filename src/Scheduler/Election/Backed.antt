-- ===== src/Scheduler/Election/Backed.antt =====
-- Leaders whose term the key backs.
use mathlib.Core.Bool.{true≢false}
use mathlib.Core.Option.{none-ne-some, some-injective}
use citra_flows.Common.{
  then_of, else_of, ℕ, ◌+◌, ◌≤◌, ◌<◌, String, true, ◌||◌, Option, none, some, List, [], ◌∷◌, map,
  any, All, ltb, ltb→lt, ◌≡◌, inl, inr, refl, sym, ap, subst, ◌∙◌, arith, Bool-cases, ==_iff,
  if◌then◌else◌,
}
use citra_flows.Scheduler.Election.{Lease, Config, live, Term, Cluster, is_of, refresh_term}

-- A leader's term is backed by the key, which outlasts it.
pub record Backed (cfg : Config) (now : ℕ) (key : Option Lease) (t : Term) : Type 0 where
  pub lease : Lease
  pub stored : key ≡ some lease
  pub own : lease.holder ≡ t.instance_id
  pub lasts : t.renewed_at + cfg.ttl ≤ lease.expires
  pub fresh : now < t.renewed_at + cfg.ttl

abbrev pub AllBacked : Config → Cluster → Type 0
AllBacked cfg c = All (Backed cfg c.now c.key) c.leaders

-- While a leader is backed, the key is live.
pub live-Backed :
    (cfg : Config) (now : ℕ) (key : Option Lease) (t : Term)
    → (b : Backed cfg now key t) → live now key ≡ some b.lease
unfolding live
live-Backed cfg now key t b = ap (live now) b.stored ∙ ground (arith, b.lasts, b.fresh)

-- What holds between events: the leaders are backed, and the holder of a live key leads.
pub record Inv (cfg : Config) (c : Cluster) : Type 0 where
  pub backed : AllBacked cfg c
  pub led : (l : Lease) → live c.now c.key ≡ some l → any (is_of l.holder) c.leaders ≡ true

pub no_leaders :
    (cfg : Config) (now : ℕ) (key : Option Lease) (ts : List Term)
    → All (Backed cfg now key) ts
    → live now key ≡ none
    → ts ≡ []
no_leaders cfg now key [] a e = refl
no_leaders cfg now key (t ∷ ts) a e = let q = sym e ∙ live-Backed cfg now key t a.0 in absurd (cc)

pub live-key :
    (now : ℕ) (key : Option Lease) (l : Lease)
    → live now key ≡ some l
    → (key ≡ some l) × (now < l.expires)
unfolding live
live-key now none l e = absurd (none-ne-some _ e)
live-key now (some m) l e = elim (Bool-cases (ltb now m.expires)) [
  | inl t ↦
      let q = some-injective _ _ (then_of _ t e) in
      (ap some q, subst (λ x. now < x.expires) q (ltb→lt now m.expires t))
  | inr f ↦ absurd (none-ne-some _ (else_of _ f e))
]

pub live-before : (now : ℕ) (l : Lease) → now < l.expires → live now (some l) ≡ some l
unfolding live
live-before now l h = ground (arith, h)

pub any-All :
    (P : Term → Type 0) (id : String) (ts : List Term)
    → any (is_of id) ts ≡ true
    → All P ts
    → (t : Term) × P t × (t.instance_id ≡ id)
any-All P id [] e a = absurd (true≢false (sym e))
any-All P id (t ∷ ts) e a = elim (Bool-cases (is_of id t)) [
  | inl h ↦ (t, a.0, (==_iff t.instance_id id).0 h)
  | inr f ↦ any-All P id ts (sym (ap (λ b. b || any (is_of id) ts) f) ∙ e) a.1
]

pub any-refresh :
    (h id : String) (now : ℕ) (ts : List Term)
    → any (is_of h) (map (refresh_term id now) ts) ≡ any (is_of h) ts
any-refresh h id now [] = refl
any-refresh h id now (t ∷ ts) = ground (arith, any-refresh h id now ts)

pub refreshed :
    (cfg : Config)
    → 0 < cfg.ttl
    → (id : String) (now : ℕ) (l : Lease) (t : Term) → t.instance_id ≡ id
    → l.holder ≡ id
    → l.expires ≡ now + cfg.ttl
    → Backed cfg now (some l) (refresh_term id now t)
refreshed cfg positive id now l t same h e =
    subst (λ b. Backed cfg now (some l) (if b then record t { renewed_at = now } else t))
      (sym ((==_iff t.instance_id id).1 same))
      (record {
        lease = l;
        stored = refl;
        own = h ∙ sym same;
        lasts = omega (arith, e);
        fresh = omega (arith, positive);
      })
