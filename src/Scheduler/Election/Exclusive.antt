-- ===== src/Scheduler/Election/Exclusive.antt =====
-- At most one instance leads.
use mathlib.Core.Bool.{true≢false}
use mathlib.Core.Option.{none-ne-some, some-injective}
use citra_flows.Common.{
  All-In, All-map, All-both, ℕ, suc, ◌+◌, ◌<◌, String, true, false, none, some, List, [], ◌∷◌, any,
  All, mem, In, ◌≡◌, inl, inr, refl, sym, ap, subst, ◌∙◌, arith, Bool-cases, Option-cases,
  if_ind_eq, ==_iff, if◌then◌else◌, ◌==◌,
}
use citra_flows.Scheduler.Election.{
  Lease, Config, Redis, answers, raises, live, acquire, try_acquire_leadership, extend, after_reply,
  campaign_as, renew, Term, Cluster, Event, campaign, beat, poll, pass, is_of, refresh_term, elect,
  hold, step, steps,
}
use citra_flows.Scheduler.Election.Backed.{
  Backed, Inv, live-Backed, no_leaders, live-key, live-before, any-All, any-refresh, refreshed,
}

abbrev IsUnapplied : Redis → Type 0
IsUnapplied answers = Unit
IsUnapplied (raises lost applied) = applied ≡ false

-- The events keep the assumptions: an instance campaigns only while its connection is not lost, a
-- campaign that raises has not set the key, Redis answers heartbeats, and the clock passes a second
-- only while every leader has renewed the key within its time to live.
abbrev pub IsTimely : Config → Event → Cluster → Type 0
IsTimely cfg (campaign r id) c = (mem id c.cut ≡ false) × IsUnapplied r
IsTimely cfg (beat r id) c = r ≡ answers
IsTimely cfg (poll r id) c = Unit
IsTimely cfg pass c = All (λ (t : Term). suc c.now < t.renewed_at + cfg.ttl) c.leaders

abbrev pub AreTimely : Config → List Event → Cluster → Type 0
AreTimely cfg [] c = Unit
AreTimely cfg (e ∷ es) c = IsTimely cfg e c × AreTimely cfg es (step cfg e c)

abbrev new_term : String → Cluster → Term
new_term id c = record { instance_id = id; renewed_at = c.now }

module _ (cfg : Config) (positive : 0 < cfg.ttl) (c : Cluster) (inv : Inv cfg c) where
  -- A campaign that finds no live key, by a new leader.
  elect-none :
      (id : String) → live c.now c.key ≡ none → Inv cfg (elect id (acquire cfg id c.now none) c)
  unfolding elect acquire live
  elect-none id e = record {
    backed = (
      record {
        lease = record { holder = id; expires = c.now + cfg.ttl };
        stored = refl;
        own = refl;
        lasts = omega arith;
        fresh = omega (arith, positive);
      },
      subst (All _) (sym (no_leaders cfg c.now c.key c.leaders inv.backed e)) tt,
    );
    led = λ l f.
        subst (λ (m : Lease). any (is_of m.holder) (new_term id c ∷ c.leaders) ≡ true)
          (some-injective _ _ ((live-key c.now _ l f).0)) (ground (arith, ==_iff id id));
  }

  same_key : (id : String) → Inv cfg (elect id (false, c.key) c)
  unfolding elect
  same_key id = record { backed = inv.backed; led = inv.led }

  -- A campaign that finds the key of another: the holder of a live key leads.
  elect-some :
      (id : String) (l : Lease)
      → any (is_of id) c.leaders ≡ false
      → live c.now c.key ≡ some l
      → Inv cfg (elect id (acquire cfg id c.now (some l)) c)
  unfolding acquire
  elect-some id l idle e = elim (Bool-cases (l.holder == id)) [
    | inl t ↦
        let led =
          sym (inv.led l e) ∙ ap (λ h. any (is_of h) c.leaders) ((==_iff l.holder id).0 t) ∙ idle in
        absurd (true≢false led)
    | inr f ↦
        subst (λ b. Inv cfg (elect id (b, some l) c)) (sym f)
          (subst (λ k. Inv cfg (elect id (false, k) c)) (live-key c.now c.key l e).0 (same_key id))
  ]

  pass-Inv :
      All (λ (t : Term). suc c.now < t.renewed_at + cfg.ttl) c.leaders → Inv cfg (step cfg pass c)
  unfolding step
  pass-Inv timely = record {
    backed =
        All-both (Backed cfg c.now c.key) _ _ c.leaders
          (λ t b u. record {
            lease = b.lease;
            stored = b.stored;
            own = b.own;
            lasts = b.lasts;
            fresh = u;
          })
          inv.backed timely;
    led = λ l e.
        let k = live-key (suc c.now) c.key l e in
        inv.led l (ap (live c.now) k.0 ∙ live-before c.now l (omega (arith, k.1)));
  }

  -- A leader's heartbeat finds its own key.
  own_key :
      (id : String)
      → any (is_of id) c.leaders ≡ true
      → (l : Lease) × (live c.now c.key ≡ some l) × (l.holder ≡ id)
  own_key id lead =
      let t = any-All (Backed cfg c.now c.key) id c.leaders lead inv.backed in
      (t.1.lease, live-Backed cfg c.now c.key t.0 t.1, t.1.own ∙ t.2)

  hold-Inv :
      (id : String) (l : Lease)
      → live c.now c.key ≡ some l
      → l.holder ≡ id
      → Inv cfg (hold id (true, some (record l { expires = c.now + cfg.ttl })) c)
  unfolding hold
  hold-Inv id l e h =
      let l' : Lease = record l { expires = c.now + cfg.ttl } in
      record {
        backed =
            All-map (Backed cfg c.now c.key) (Backed cfg c.now (some l')) (refresh_term id c.now)
              c.leaders
              (λ t b.
                let same : t.instance_id ≡ id =
                  sym b.own
                  ∙ ap (λ (x : Lease). x.holder)
                      (some-injective _ _ (sym (live-Backed cfg c.now c.key t b) ∙ e))
                  ∙ h in
                refreshed cfg positive id c.now l' t same h refl)
              inv.backed;
        led = λ x f.
            let q = some-injective _ _ ((live-key c.now _ x f).0) in
            any-refresh x.holder id c.now c.leaders
            ∙ subst (λ (m : Lease). any (is_of m.holder) c.leaders ≡ true) q (inv.led l e);
      }

  -- The campaign of an instance that does not lead.
  acquire-Inv :
      (id : String)
      → any (is_of id) c.leaders ≡ false
      → Inv cfg (elect id (acquire cfg id c.now (live c.now c.key)) c)
  acquire-Inv id idle = elim (Option-cases (live c.now c.key)) [
    | inl e ↦ subst (λ k. Inv cfg (elect id (acquire cfg id c.now k) c)) (sym e) (elect-none id e)
    | inr m ↦
        subst (λ k. Inv cfg (elect id (acquire cfg id c.now k) c)) (sym m.1)
          (elect-some id m.0 idle m.1)
  ]

  extend-Inv :
      (id : String)
      → any (is_of id) c.leaders ≡ true
      → Inv cfg (hold id (extend cfg id c.now (live c.now c.key)) c)
  unfolding extend
  extend-Inv id t =
      let k = own_key id t in
      let l = k.0 in
      subst (λ o. Inv cfg (hold id (extend cfg id c.now o) c)) (sym k.1)
        (subst
          (λ b. Inv cfg (
            hold id
              (if b then (true, some (record l { expires = c.now + cfg.ttl })) else (false, some l))
              c))
          (sym ((==_iff l.holder id).1 k.2)) (hold-Inv id l k.1 k.2))

  reply-Inv : (r : Redis) (id : String) → Inv cfg (after_reply r id c)
  reply-Inv r id = record { backed = inv.backed; led = inv.led }

module _ (cfg : Config) (positive : 0 < cfg.ttl) (c : Cluster) (inv : Inv cfg c) where
  campaign-Inv :
      (r : Redis) (id : String)
      → any (is_of id) c.leaders ≡ false
      → IsUnapplied r
      → Inv cfg (campaign_as cfg false r id c)
  unfolding campaign_as try_acquire_leadership
  campaign-Inv answers id idle u =
      acquire-Inv cfg positive (after_reply answers id c) (reply-Inv cfg positive c inv answers id)
        id idle
  campaign-Inv (raises lost true) id idle u = absurd (true≢false u)
  campaign-Inv (raises lost false) id idle u =
      same_key cfg positive (after_reply (raises lost false) id c)
        (reply-Inv cfg positive c inv (raises lost false) id) id

  step-Inv : (e : Event) → IsTimely cfg e c → Inv cfg (step cfg e c)
  unfolding step renew
  step-Inv (campaign r id) (connected, u) =
      if_ind_eq (Inv cfg) (any (is_of id) c.leaders) (λ t. inv)
        (λ f.
          subst (λ b. Inv cfg (campaign_as cfg b r id c)) (sym connected) (campaign-Inv r id f u))
  step-Inv (beat answers id) h =
      if_ind_eq (Inv cfg) (any (is_of id) c.leaders)
        (λ t.
          extend-Inv cfg positive (after_reply answers id c)
            (reply-Inv cfg positive c inv answers id) id t)
        (λ f. inv)
  step-Inv (beat (raises lost applied) id) h = absurd (cc)
  step-Inv (poll r id) h = reply-Inv cfg positive c inv r id
  step-Inv pass h = pass-Inv cfg positive c inv h

steps-Inv :
    (cfg : Config)
    → 0 < cfg.ttl
    → (es : List Event) (c : Cluster) → Inv cfg c
    → AreTimely cfg es c
    → Inv cfg (steps cfg es c)
unfolding steps
steps-Inv cfg positive [] c inv h = inv
steps-Inv cfg positive (e ∷ es) c inv h =
    steps-Inv cfg positive es (step cfg e c) (step-Inv cfg positive c inv e h.0) h.1

abbrev pub no_leader : ℕ → Cluster
no_leader now = record { now = now; key = none; leaders = []; cut = [] }

-- However the campaigns, heartbeats and seconds of any instances follow one another from a state
-- without a leader and with every connection up, two leaders are one instance, provided that no
-- instance campaigns while its connection is lost, no campaign that raises has set the key, Redis
-- answers every heartbeat, and no leader lets the key's time to live, which is positive, pass between
-- renewals. A campaign may raise, and any process may lose its connection and get it back.
pub steps-one_leader :
    (cfg : Config) (now : ℕ) (es : List Event) (a b : Term)
    → 0 < cfg.ttl
    → AreTimely cfg es (no_leader now)
    → In a (steps cfg es (no_leader now)).leaders
    → In b (steps cfg es (no_leader now)).leaders
    → a.instance_id ≡ b.instance_id
unfolding live
steps-one_leader cfg now es a b positive timely i j =
    let c = steps cfg es (no_leader now) in
    let inv =
      steps-Inv cfg positive es (no_leader now)
        (record { backed = tt; led = λ l e. absurd (none-ne-some _ e) }) timely in
    let p = All-In (Backed cfg c.now c.key) c.leaders a inv.backed i in
    let q = All-In (Backed cfg c.now c.key) c.leaders b inv.backed j in
    sym p.own ∙ ap (λ (l : Lease). l.holder) (some-injective _ _ (sym p.stored ∙ q.stored)) ∙ q.own
