-- ===== src/Gateway/Registry/Resolve.antt =====
-- What a lookup in the registry answers.
use portkeeper.Common.{
  String, ◌≡◌, ◌≢◌, refl, sym, ap, subst, ◌∙◌, Option, none, some, inl, inr, List, [], ◌∷◌, arith,
  ◌==◌, if◌then◌else◌, Bool-cases, string_equal,
}
use portkeeper.Common.Dict.{lookup, IsDistinct}
use portkeeper.Gateway.Registry.{
  NamespacedName, name_equal, Backend, Registry, Resolution, found, not_found, ambiguous, scan,
  exact, resolve,
}

abbrev pub Backends : Type 0
Backends = List (NamespacedName × Backend)

-- No backend of the map has the name.
abbrev pub Missing : String → Backends → Type 0
Missing name m = (k : NamespacedName) → k.name ≡ name → lookup k m ≡ none

-- The backend under a key with the name.
pub record Named (name : String) (m : Backends) (k : NamespacedName) (b : Backend) : Type 0 where
  pub matches : k.name ≡ name
  pub present : lookup k m ≡ some b

-- What a name without a namespace stands for, in terms of lookups alone.
pub data Legacy (name : String) (m : Backends) : Resolution → Type 0 where
  missing : Missing name m → Legacy name m not_found
  unique :
      {k : NamespacedName} {b : Backend}
      → Named name m k b
      → ((j : NamespacedName) → j.name ≡ name → j ≢ k → lookup j m ≡ none)
      → Legacy name m (found b)
  several :
      {j k : NamespacedName} {b c : Backend}
      → Named name m j b
      → Named name m k c
      → j ≢ k
      → Legacy name m ambiguous

module _ (name : String) (key : NamespacedName) (b : Backend) (m : Backends) where
  skip-lookup : (j : NamespacedName) → key ≢ j → lookup j ((key, b) ∷ m) ≡ lookup j m
  unfolding lookup
  skip-lookup j ne = ground (arith, name_equal.equal_iff key j)

  head-lookup : lookup key ((key, b) ∷ m) ≡ some b
  unfolding lookup
  head-lookup = ground (arith, name_equal.equal_iff key key)

  skip-Missing : key.name ≢ name → Missing name m → Missing name ((key, b) ∷ m)
  skip-Missing ne h j same =
      skip-lookup j (λ e. ne (ap (λ (k : NamespacedName). k.name) e ∙ same)) ∙ h j same

  skip-Named :
      {k : NamespacedName} {c : Backend}
      → key ≢ k
      → Named name m k c
      → Named name ((key, b) ∷ m) k c
  skip-Named {k} ne n = record { matches = n.matches; present = skip-lookup k ne ∙ n.present }

  name-ne : {k : NamespacedName} → key.name ≢ name → k.name ≡ name → key ≢ k
  name-ne ne same e = ne (ap (λ (k : NamespacedName). k.name) e ∙ same)

-- Once a match is found, the loop looks for a second one.
data Second (name : String) (b : Backend) (m : Backends) : Type 0 where
  alone : Missing name m → scan name (some b) m ≡ found b → Second name b m
  another :
      (k : NamespacedName) (c : Backend)
      → Named name m k c
      → scan name (some b) m ≡ ambiguous
      → Second name b m

scan_some-Second : (name : String) (b : Backend) (m : Backends) → Second name b m
unfolding scan
scan_some-Second name b [] = alone (λ k same. unfold lookup in refl) refl
scan_some-Second name b ((key, v) ∷ m) = elim (Bool-cases (key.name == name)) [
  | inl same ↦
      another key v
        (record {
          matches = (string_equal.equal_iff key.name name).0 same;
          present = head-lookup name key v m;
        })
        (rw (same, if◌then◌else◌) refl)
  | inr other ↦
      let ne : key.name ≢ name = ground (arith, string_equal.equal_iff key.name name) in
      elim (scan_some-Second name b m) [
        | alone none_left e ↦
            alone (skip-Missing name key v m ne none_left) (rw (other, if◌then◌else◌) e)
        | another k c n e ↦
            another k c (skip-Named name key v m (name-ne name key v m ne n.matches) n)
              (rw (other, if◌then◌else◌) e)
      ]
]

-- An entry under another name changes nothing.
skip-Legacy :
    (name : String) (key : NamespacedName) (v : Backend) (m : Backends) {r : Resolution}
    → key.name ≢ name
    → Legacy name m r
    → Legacy name ((key, v) ∷ m) r
skip-Legacy name key v m ne (missing h) = missing (skip-Missing name key v m ne h)
skip-Legacy name key v m ne (unique n only) =
    unique (skip-Named name key v m (name-ne name key v m ne n.matches) n) (λ j same other.
      skip-lookup name key v m j (name-ne name key v m ne same) ∙ only j same other)
skip-Legacy name key v m ne (several n o differ) =
    several (skip-Named name key v m (name-ne name key v m ne n.matches) n)
      (skip-Named name key v m (name-ne name key v m ne o.matches) o) differ

taken :
    (m : Backends) (j k : NamespacedName) {b : Backend}
    → lookup j m ≡ none
    → j ≡ k
    → lookup k m ≡ some b
    → ⊥
taken m j k absent e present =
    let gone : lookup k m ≡ none = subst (λ (i : NamespacedName). lookup i m ≡ none) e absent in cc

scan-Legacy : (name : String) (m : Backends) → IsDistinct m → Legacy name m (scan name none m)
unfolding scan
scan-Legacy name [] d = missing (λ k same. unfold lookup in refl)
scan-Legacy name ((key, v) ∷ m) (fresh, d) = elim (Bool-cases (key.name == name)) [
  | inl same ↦
      let here : Named name ((key, v) ∷ m) key v = record {
        matches = (string_equal.equal_iff key.name name).0 same;
        present = head-lookup name key v m;
      } in
      elim (scan_some-Second name v m) [
        | alone none_left e ↦
            rw (same, if◌then◌else◌, e)
              (unique here (λ j matches ne.
                skip-lookup name key v m j (λ e. ne (sym e)) ∙ none_left j matches))
        | another k c n e ↦
            let ne : key ≢ k = λ (e : key ≡ k). taken m key k fresh e n.present in
            rw (same, if◌then◌else◌, e) (several here (skip-Named name key v m ne n) ne)
      ]
  | inr other ↦
      let ne : key.name ≢ name = ground (arith, string_equal.equal_iff key.name name) in
      rw (other, if◌then◌else◌) (skip-Legacy name key v m ne (scan-Legacy name m d))
]

-- A name without a namespace resolves to the one backend of that name in any namespace, is unknown
-- if there is none, and ambiguous if there are two, whatever the order in which the map is visited.
pub resolve-Legacy :
    (r : Registry) (name : String)
    → IsDistinct r.backends
    → Legacy name r.backends (resolve r "" name)
unfolding resolve
resolve-Legacy r name d = scan-Legacy name r.backends d

module _ (m n : Backends) (same : (k : NamespacedName) → lookup k m ≡ lookup k n) where
  -- A backend of one snapshot is not missing in the other.
  clash : (name : String) {k : NamespacedName} {b : Backend} → Named name m k b → Missing name n → ⊥
  clash name {k} h gone = taken m k k (same k ∙ gone k h.matches) refl h.present

  -- A unique backend of one snapshot is the only one in the other.
  unique_key :
      (name : String) {j k : NamespacedName} {b : Backend}
      → ((i : NamespacedName) → i.name ≡ name → i ≢ k → lookup i n ≡ none)
      → Named name m j b
      → j ≡ k
  unique_key name {j} {k} only h = elim (Bool-cases (j == k)) [
    | inl e ↦ (name_equal.equal_iff j k).0 e
    | inr e ↦ absurd (
        taken m j j (same j ∙ only j h.matches (λ eq. ground (arith, name_equal.equal_iff j k)))
          refl h.present)
  ]

module _ (name : String) (m n : Backends)
    (same : (k : NamespacedName) → lookup k m ≡ lookup k n) where
  back : (k : NamespacedName) → lookup k n ≡ lookup k m
  back k = sym (same k)

  unique-eq :
      (j k : NamespacedName) (b c : Backend)
      → j ≡ k
      → lookup j m ≡ some b
      → lookup k n ≡ some c
      → found b ≡ found c
  unique-eq j k b c e p q = let here : lookup j n ≡ some c = rw e q in let there = same j in cc

  -- The answer is determined by the lookups.
  Legacy-eq : {r s : Resolution} → Legacy name m r → Legacy name n s → r ≡ s
  Legacy-eq (missing h) (missing i) = refl
  Legacy-eq (missing h) (unique x only) = absurd (clash n m back name x h)
  Legacy-eq (missing h) (several x y ne) = absurd (clash n m back name x h)
  Legacy-eq (unique x only) (missing i) = absurd (clash m n same name x i)
  Legacy-eq (unique {k = j} {b = b} x only) (unique {k = k} {b = c} y others) =
      unique-eq j k b c (unique_key m n same name others x) x.present y.present
  Legacy-eq (unique x only) (several y z ne) =
      absurd (ne (unique_key n m back name only y ∙ sym (unique_key n m back name only z)))
  Legacy-eq (several x y ne) (missing i) = absurd (clash m n same name x i)
  Legacy-eq (several x y ne) (unique z others) =
      absurd (ne (unique_key m n same name others x ∙ sym (unique_key m n same name others y)))
  Legacy-eq (several x y ne) (several z w other) = refl

-- Two snapshots with the same entries answer every request alike, in whatever order their maps are
-- visited.
pub resolve-ext :
    (r s : Registry) (namespace name : String)
    → IsDistinct r.backends
    → IsDistinct s.backends
    → ((k : NamespacedName) → lookup k r.backends ≡ lookup k s.backends)
    → resolve r namespace name ≡ resolve s namespace name
unfolding resolve
resolve-ext r s namespace name d e same = elim (Bool-cases (namespace == "")) [
  | inl legacy ↦
      rw (legacy, if◌then◌else◌)
        (Legacy-eq name r.backends s.backends same (scan-Legacy name r.backends d)
          (scan-Legacy name s.backends e))
  | inr spaced ↦
      rw (spaced, if◌then◌else◌) (ap exact (same (record { namespace = namespace; name = name })))
]

exact-found : (o : Option Backend) (b : Backend) → exact o ≡ found b → o ≡ some b
unfolding exact
exact-found none b h = cc
exact-found (some c) b h = cc

Legacy-found :
    (name : String) (m : Backends) (b : Backend) {r : Resolution}
    → Legacy name m r
    → r ≡ found b
    → (k : NamespacedName) × (lookup k m ≡ some b)
Legacy-found name m b (missing h) e = cc
Legacy-found name m b (unique {k = k} n only) e = (k, n.present ∙ ground arith)
Legacy-found name m b (several n o ne) e = cc

-- What a name resolves to stands in the registry.
pub resolve-found :
    (r : Registry) (namespace name : String) (b : Backend)
    → IsDistinct r.backends
    → resolve r namespace name ≡ found b
    → (k : NamespacedName) × (lookup k r.backends ≡ some b)
unfolding resolve
resolve-found r namespace name b d h = elim (Bool-cases (namespace == "")) [
  | inl legacy ↦
      Legacy-found name r.backends b (scan-Legacy name r.backends d)
        (rw (legacy, if◌then◌else◌) at h)
  | inr spaced ↦ (
    record { namespace = namespace; name = name },
    exact-found _ b (rw (spaced, if◌then◌else◌) at h),
  )
]
