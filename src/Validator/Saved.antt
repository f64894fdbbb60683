-- ===== src/Validator/Saved.antt =====
-- The connection that an identifier stands for among the saved ones.
use citra_flows.Common.{
  ◌≡◌, refl, sym, ap, subst, ◌∙◌, ◌⊎◌, inl, inr, String, true, false, not, ◌&&◌, List, [], ◌∷◌, All,
  arith, if◌then◌else◌, if_ind_eq, ◌==◌,
}
use citra_flows.Value.{Value, null, bool, int, str, arr, obj, other, truthy}
use citra_flows.Validator.{
  Connection, Entry, unhashable, missing, entry, index_get, find_connection,
}

-- No connection has the identifier.
abbrev pub IsFree : String → List Connection → Type 0
IsFree k = All (λ (c : Connection). (k == c.id) ≡ false)

-- The last connection with the identifier is of the type.
abbrev pub IsLast : String → Value → List Connection → Type 0
IsLast k kind [] = ⊥
IsLast k kind (c ∷ cs) = IsLast k kind cs ⊎ (((k == c.id) ≡ true) × (c.kind ≡ kind) × IsFree k cs)

-- The value is a nonempty text, and the last connection with this identifier is of the type.
pub record IsSaved (cs : List Connection) (v kind : Value) : Type 0 where
  pub id : String
  pub text : v ≡ str id
  pub nonempty : (id == "") ≡ false
  pub last : IsLast id kind cs

-- What looking an identifier up says of the connections.
abbrev Reads : String → List Connection → Entry → Type 0
Reads k cs unhashable = ⊥
Reads k cs missing = IsFree k cs
Reads k cs (entry kind) = IsLast k kind cs

module _ (k : String) (nonempty : (k == "") ≡ false) where
  cons-Reads :
      (c : Connection) (cs : List Connection) (e : Entry)
      → Reads k cs e
      → Reads k (c ∷ cs) (elim e [
        | missing ↦ if not (k == "") && k == c.id then entry c.kind else missing
        | e ↦ e
      ])
  cons-Reads c cs unhashable r = r
  cons-Reads c cs (entry kind) r = inl r
  cons-Reads c cs missing r =
      if_ind_eq (Reads k (c ∷ cs)) (not (k == "") && k == c.id)
        (λ t. inr (ground (arith, t), refl, r)) (λ f. (ground (arith, f, nonempty), r))

  index_get-Reads : (cs : List Connection) → Reads k cs (index_get k cs)
  unfolding index_get
  index_get-Reads [] = tt
  index_get-Reads (c ∷ cs) = cons-Reads c cs (index_get k cs) (index_get-Reads cs)

  free : (kind : Value) (cs : List Connection) → IsFree k cs → IsLast k kind cs → ⊥
  free kind [] f l = l
  free kind (c ∷ cs) (f, fs) l = elim l [ inl m ↦ free kind cs fs m | inr m ↦ cc (f, m.0) ]

  same_last : (a b : Value) (cs : List Connection) → IsLast k a cs → IsLast k b cs → a ≡ b
  same_last a b [] l m = elim l [ ]
  same_last a b (c ∷ cs) l m = elim l [
    | inl x ↦ elim m [ inl y ↦ same_last a b cs x y | inr y ↦ elim (free a cs y.2 x) [ ] ]
    | inr x ↦ elim m [ inl y ↦ elim (free b cs x.2 y) [ ] | inr y ↦ sym x.1 ∙ y.1 ]
  ]

  Reads-entry :
      (kind : Value) (cs : List Connection) (e : Entry)
      → Reads k cs e
      → IsLast k kind cs
      → e ≡ entry kind
  Reads-entry kind cs unhashable r l = elim r [ ]
  Reads-entry kind cs missing r l = elim (free kind cs r l) [ ]
  Reads-entry kind cs (entry a) r l = ap entry (same_last a kind cs r l)

-- What looking a value up says, when its texts are not empty.
Finds : List Connection → Value → Entry → Type 0
Finds cs v unhashable = Unit
Finds cs v missing = Unit
Finds cs v (entry kind) = IsSaved cs v kind

Finds-str :
    (cs : List Connection) (id : String)
    → (id == "") ≡ false
    → (e : Entry) → Reads id cs e
    → Finds cs (str id) e
unfolding Finds
Finds-str cs id n unhashable r = tt
Finds-str cs id n missing r = tt
Finds-str cs id n (entry kind) r = record { id = id; text = refl; nonempty = n; last = r }

find_connection-Finds :
    (cs : List Connection) (v : Value) → truthy v ≡ true → Finds cs v (find_connection cs v)
unfolding find_connection Finds truthy
find_connection-Finds cs (str id) t =
    let n : (id == "") ≡ false = ground (arith, t) in
    Finds-str cs id n (index_get id cs) (index_get-Reads id n cs)
find_connection-Finds cs null t = tt
find_connection-Finds cs (bool b) t = tt
find_connection-Finds cs (int n) t = tt
find_connection-Finds cs (arr vs) t = tt
find_connection-Finds cs (obj d) t = tt
find_connection-Finds cs (other b) t = tt

-- A value that is not falsy is looked up to what is saved under it.
pub find_connection-IsSaved :
    (cs : List Connection) (v kind : Value)
    → truthy v ≡ true
    → find_connection cs v ≡ entry kind
    → IsSaved cs v kind
unfolding Finds
find_connection-IsSaved cs v kind t e = subst (Finds cs v) e (find_connection-Finds cs v t)

pub IsSaved-find_connection :
    (cs : List Connection) (v kind : Value) → IsSaved cs v kind → find_connection cs v ≡ entry kind
unfolding find_connection
IsSaved-find_connection cs v kind s =
    ap (find_connection cs) s.text
    ∙ Reads-entry s.id s.nonempty kind cs (index_get s.id cs) (index_get-Reads s.id s.nonempty cs)
        s.last
