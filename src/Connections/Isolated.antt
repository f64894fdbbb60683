-- ===== src/Connections/Isolated.antt =====
-- Which connections a workflow can resolve.
use mathlib.Core.Bool.{true≢false}
use citra_flows.Common.{
  String, true, false, not, Option, none, some, List, In, first, first-passes, first-from, ◌≡◌, ◌≢◌,
  ◌⊎◌, inl, inr, refl, sym, ap, ◌∙◌, arith, Bool-cases, if_ind, if_ind_eq, ==_iff, ◌==◌,
}
use citra_flows.Value.{Fields, nonempty}
use citra_flows.Connections.{
  Profile, Request, Crypto, Resolved, denied, resolved, result_of, config_of, is_same_tenant,
  is_foreign, resolve_profile, has_connection_id, resolve_connection,
}

-- The profile that a result comes from.
pub record Permitted (cr : Crypto) (q : Request) (id : String) (profiles : List Profile)
    (r : Fields) : Type 0 where
  pub profile : Profile
  pub stored : In profile profiles
  pub named : profile.connection_id ≡ id
  pub tenant : profile.org_id ≡ q.org_id
  pub some_tenant : q.org_id ≢ ""
  pub account :
      q.owner_type ≡ "service_account"
      → (profile.owner_id ≡ "") ⊎ ((q.owner_id ≡ "") ⊎ (profile.owner_id ≡ q.owner_id))
  pub result : r ≡ result_of cr profile (cr.decrypt (config_of q profile))

resolved_inj : (a b : Fields) → resolved a ≡ resolved b → a ≡ b
resolved_inj a b e = ap (fields_of a) e
  where
    fields_of : Fields → Resolved → Fields
    fields_of d (resolved f) = f
    fields_of d (denied x) = d

not_equal : (s t : String) → not (s == t) ≡ true → s ≢ t
not_equal s t n = λ e. true≢false (sym n ∙ ap not ((==_iff s t).1 e))

module _ (q : Request) (p : Profile) where
  tenant_of : is_same_tenant q p ≡ true → (p.org_id ≡ q.org_id) × (q.org_id ≢ "")
  tenant_of t =
      ((==_iff p.org_id q.org_id).0 (ground (arith, t)), not_equal q.org_id "" (ground (arith, t)))

  account_of :
      is_foreign q p ≡ false
      → q.owner_type ≡ "service_account"
      → (p.owner_id ≡ "") ⊎ ((q.owner_id ≡ "") ⊎ (p.owner_id ≡ q.owner_id))
  account_of f s = elim (Bool-cases (p.owner_id == "")) [
    | inl a ↦ inl ((==_iff p.owner_id "").0 a)
    | inr a ↦ elim (Bool-cases (q.owner_id == "")) [
      | inl b ↦ inr (inl ((==_iff q.owner_id "").0 b))
      | inr b ↦
          let t = (==_iff q.owner_type "service_account").1 s in
          inr (inr ((==_iff p.owner_id q.owner_id).0 (ground (arith, f, t, a, b))))
    ]
  ]

module _ (cr : Crypto) (q : Request) (id : String) (profiles : List Profile) (r : Fields) where
  resolve_profile-Permitted :
      (o : Option Profile)
      → first (has_connection_id id) profiles ≡ o
      → resolve_profile cr q o ≡ resolved r
      → Permitted cr q id profiles r
  unfolding resolve_profile
  resolve_profile-Permitted none e = λ h. absurd (cc)
  resolve_profile-Permitted (some p) e =
      let Gives = λ (x : Resolved). x ≡ resolved r → Permitted cr q id profiles r in
      if_ind_eq Gives (not (is_same_tenant q p)) (λ t h. absurd (cc))
        (λ t.
          if_ind_eq Gives (is_foreign q p) (λ f h. absurd (cc))
            (λ f.
              if_ind Gives (not (nonempty (config_of q p))) (λ h. absurd (cc))
                (λ h.
                  let same = tenant_of q p (ground (arith, t)) in
                  record {
                    profile = p;
                    stored = first-from (has_connection_id id) profiles p e;
                    named =
                        (==_iff p.connection_id id).0
                          (first-passes (has_connection_id id) profiles p e);
                    tenant = same.0;
                    some_tenant = same.1;
                    account = account_of q p f;
                    result = sym (resolved_inj _ r h);
                  })))

  -- Whatever a workflow resolves comes from a connection with the identifier that it asked for, of
  -- its own organisation, which is not empty; where the workflow belongs to a service account and
  -- both owners are known, the connection is the account's own. The result is that of the
  -- environment's configuration, decrypted.
  pub resolve_connection-Permitted :
      resolve_connection cr q id profiles ≡ resolved r → Permitted cr q id profiles r
  unfolding resolve_connection
  resolve_connection-Permitted =
      resolve_profile-Permitted (first (has_connection_id id) profiles) refl
