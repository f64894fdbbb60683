-- ===== src/Logic/SetVariable/Agrees.antt =====
-- What a SetVariable node reports and what it leaves in the variables.
use citra_flows.Common.{
  ◌≡◌, refl, ap, subst, String, Bool, true, false, Option, none, some, List, [], ◌∷◌, if◌then◌else◌,
  if_ind, ◌==◌,
}
use citra_flows.Value.{
  Value, Fields, null, bool, int, str, arr, obj, other, end, get, get_default, put,
}
use citra_flows.Value.Laws.{get-put}
use citra_flows.Logic.{Python, Fault}
use citra_flows.Logic.SetVariable.{Progress, set, stopped, resolved, assign, name_of, assign_all}

abbrev pub or_else : Option Value → Option Value → Option Value
or_else none w = w
or_else (some v) w = some v

-- The variables are those from before, overwritten with the ones that are reported.
pub record Agrees (base vars updated : Fields) : Type 0 where
  pub at : (k : String) → get k vars ≡ or_else (get k updated) (get k base)

or_else_put :
    (c : Bool) (v : Value) (o p q : Option Value)
    → q ≡ or_else o p
    → (if c then some v else q) ≡ or_else (if c then some v else o) p
or_else_put true v o p q e = refl
or_else_put false v o p q e = e

put-Agrees :
    (base vars updated : Fields) (name : String) (v : Value)
    → Agrees base vars updated
    → Agrees base (put name v vars) (put name v updated)
put-Agrees base vars updated name v h = record {
  at = λ k.
      rw (get-put k name v vars, get-put k name v updated)
        (or_else_put (k == name) v (get k updated) (get k base) (get k vars) (h.at k));
}

assign-Agrees :
    (py : Python) (name : String) (raw : Value) (base vars updated : Fields)
    → Agrees base vars updated
    → let next = assign py name raw vars updated in Agrees base next.0 next.1
unfolding assign
assign-Agrees py name raw base vars updated h =
    if_ind (λ (r : Fields × Fields). Agrees base r.0 r.1) (name == "") h
      (put-Agrees base vars updated name (resolved py raw vars) h)

-- A run of the loop that ends agrees.
record Good (base : Fields) (p : Progress) : Type 0 where
  at : (vars updated : Fields) → p ≡ set vars updated → Agrees base vars updated

abbrev fields_of : Progress → Fields × Fields
fields_of (set vars updated) = (vars, updated)
fields_of (stopped vars f) = (vars, end)

set-Good : (base vars updated : Fields) → Agrees base vars updated → Good base (set vars updated)
set-Good base vars updated h = record {
  at = λ vars' updated' e. subst (λ (r : Fields × Fields). Agrees base r.0 r.1) (ap fields_of e) h;
}

stopped-Good : (base vars : Fields) (f : Fault) → Good base (stopped vars f)
stopped-Good base vars f = record { at = λ vars' updated' e. cc }

entry_Good :
    (base : Fields) (o : Option String) (p : Progress) {q : String → Progress}
    → Good base p
    → ((name : String) → Good base (q name))
    → Good base (elim o [ none ↦ p | some name ↦ q name ])
entry_Good base none p g h = g
entry_Good base (some name) p g h = h name

nothing : (base : Fields) → Agrees base base end
unfolding get
nothing base = record { at = λ k. refl }

assign_all-Good :
    (py : Python) (entries : List Value) (base vars updated : Fields)
    → Agrees base vars updated
    → Good base (assign_all py entries vars updated)
unfolding assign_all
assign_all-Good py [] base vars updated h = set-Good base vars updated h
assign_all-Good py (obj entry ∷ entries) base vars updated h =
    let raw = get_default "value" (str "") entry in
    entry_Good base (name_of (get_default "name" (str "") entry)) _ (stopped-Good base vars _)
      (λ name. assign_all-Good py entries base _ _ (assign-Agrees py name raw base vars updated h))
assign_all-Good py (null ∷ entries) base vars updated h = stopped-Good base vars _
assign_all-Good py (bool b ∷ entries) base vars updated h = stopped-Good base vars _
assign_all-Good py (int n ∷ entries) base vars updated h = stopped-Good base vars _
assign_all-Good py (str s ∷ entries) base vars updated h = stopped-Good base vars _
assign_all-Good py (arr vs ∷ entries) base vars updated h = stopped-Good base vars _
assign_all-Good py (other b ∷ entries) base vars updated h = stopped-Good base vars _

-- After a SetVariable node that does not raise, a variable has the value that the node reports for
-- it, or, where it reports none, the value from before.
pub assign_all-agrees :
    (py : Python) (entries : List Value) (base vars updated : Fields)
    → assign_all py entries base end ≡ set vars updated
    → (k : String) → get k vars ≡ or_else (get k updated) (get k base)
assign_all-agrees py entries base vars updated e =
    ((assign_all-Good py entries base base end (nothing base)).at vars updated e).at
