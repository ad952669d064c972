-- ===== src/Ports/Detect/Plans.antt =====
-- What a plan holds: the ports of its services, kept as the files are merged.
use sitectl.Prelude.{
  ℕ, ◌<◌, Bool, true, false, not, ◌&&◌, ◌||◌, Option, none, some, List, [], ◌∷◌, ◌≡◌, refl, ap,
  arith, inl, inr, Bool-cases, Option-cases, if◌then◌else◌, is_empty, is_some, any, all, nat_eq,
  ltb, subst,
}
use sitectl.Result.{Result, ok, ◌>>=◌, >>=-eq-ok, ok-injective}
use sitectl.Text.{Text, codes, ◌==◌, trim_space}
use sitectl.Text.Equality.{eq_iff, eq_sound}
use sitectl.Text.Number.{ℤ, pos, negsuc}
use sitectl.Yaml.{
  mapping, Node, mk, Nodes, nil, cons, value, is_mapping, document_mapping, mapping_value,
}
use sitectl.Ports.{Service, Plan, has_port, add_port, local_dev_fallback_port}
use sitectl.Ports.Detect.{
  add_target, add_targets, merge_service, merge_services, merge_document, merge_compose_port_plan,
  inspect_files,
}

-- Sorted, and no port twice
abbrev pub is_sorted : List ℕ → Bool
is_sorted [] = true
is_sorted (n ∷ ns) = all (λ m. ltb n m) ns && is_sorted ns

abbrev pub has_fallback : ℕ → Bool
has_fallback n = is_some (local_dev_fallback_port n)

abbrev pub has_service : Text → List Service → Bool
has_service name ss = any (λ s. s.name == name) ss

abbrev pub is_service : Service → Bool
is_service s =
    not (is_empty s.name) && not (is_empty s.ports) && is_sorted s.ports && all has_fallback s.ports

-- Each service is named once and has some ports, in order, that all have a fallback.
unfoldable pub is_services : List Service → Bool
is_services [] = true
is_services (s ∷ ss) = is_service s && not (has_service s.name ss) && is_services ss

all-add_port :
    (p : ℕ → Bool) (n : ℕ) (ms : List ℕ)
    → p n ≡ true
    → all p ms ≡ true
    → all p (add_port n ms) ≡ true
unfolding add_port
all-add_port p n [] here h = ground arith
all-add_port p n (m ∷ ms) here h = ground (arith, all-add_port p n ms here (ground arith))

all_above :
    (n m : ℕ) (ms : List ℕ) → n < m → all (λ k. ltb m k) ms ≡ true → all (λ k. ltb n k) ms ≡ true
all_above n m [] lt h = refl
all_above n m (k ∷ ms) lt h = ground (arith, all_above n m ms lt (ground arith))

sorted_add_port : (n : ℕ) (ms : List ℕ) → is_sorted ms ≡ true → is_sorted (add_port n ms) ≡ true
unfolding add_port
sorted_add_port n [] h = refl
sorted_add_port n (m ∷ ms) h =
    let above : all (λ k. ltb m k) ms ≡ true = ground arith in
    let front : n < m → all (λ k. ltb n k) ms ≡ true = λ lt. all_above n m ms lt above in
    let behind : m < n → all (λ k. ltb m k) (add_port n ms) ≡ true =
      λ lt. all-add_port (λ k. ltb m k) n ms (ground arith) above in
    ground (arith, sorted_add_port n ms, front, behind)

filled_add_port : (n : ℕ) (ms : List ℕ) → is_empty (add_port n ms) ≡ false
unfolding add_port
filled_add_port n [] = refl
filled_add_port n (m ∷ ms) = ground arith

has_port-add_port :
    (k n : ℕ) (ms : List ℕ) → has_port k (add_port n ms) ≡ (nat_eq n k || has_port k ms)
unfolding add_port
has_port-add_port k n [] = refl
has_port-add_port k n (m ∷ ms) = ground (arith, has_port-add_port k n ms)

has_service-add_target :
    (other name : Text) (n : ℕ) (ss : List Service)
    → has_service other (add_target name n ss) ≡ (name == other || has_service other ss)
unfolding add_target
has_service-add_target other name n [] = ground arith
has_service-add_target other name n (s ∷ ss) = elim (Bool-cases (s.name == name)) [
  | inl e ↦ ground (arith, eq_sound s.name name e, ap (λ t. t == other) (eq_sound s.name name e))
  | inr e ↦ ground (arith, has_service-add_target other name n ss)
]

is_service-add_port :
    (n : ℕ) (s : Service)
    → has_fallback n ≡ true
    → is_service s ≡ true
    → is_service (record s { ports = add_port n s.ports }) ≡ true
is_service-add_port n s wanted h = ground (
  arith,
  filled_add_port n s.ports,
  sorted_add_port n s.ports,
  all-add_port has_fallback n s.ports wanted,
)

is_services-add_target :
    (name : Text) (n : ℕ) (ss : List Service)
    → is_empty name ≡ false
    → has_fallback n ≡ true
    → is_services ss ≡ true
    → is_services (add_target name n ss) ≡ true
unfolding is_services add_target
is_services-add_target name n [] named wanted h = ground arith
is_services-add_target name n (s ∷ ss) named wanted h = elim (Bool-cases (s.name == name)) [
  | inl e ↦ ground (arith, is_service-add_port n s wanted)
  | inr e ↦ ground (
    arith,
    is_services-add_target name n ss named wanted,
    has_service-add_target s.name name n ss,
    eq_iff name s.name,
    eq_iff s.name name,
    eq_sound name s.name,
  )
]

is_services-add_targets :
    (name : Text) (ts : List ℤ) (ss : List Service)
    → is_empty name ≡ false
    → is_services ss ≡ true
    → is_services (add_targets name ts ss) ≡ true
unfolding add_targets
is_services-add_targets name [] ss named h = h
is_services-add_targets name (negsuc n ∷ ts) ss named h = is_services-add_targets name ts ss named h
is_services-add_targets name (pos n ∷ ts) ss named h =
    is_services-add_targets name ts _ named (elim (Bool-cases (has_fallback n)) [
      | inl e ↦ rw e (is_services-add_target name n ss named e h)
      | inr e ↦ rw e h
    ])

merge_services-is_services :
    (c : Nodes) (p : Plan)
    → is_services p.services ≡ true
    → is_services (merge_services c p).services ≡ true
unfolding merge_services merge_service
merge_services-is_services nil p h = h
merge_services-is_services (cons k nil) p h = h
merge_services-is_services (cons k (cons v rest)) p h =
    merge_services-is_services rest _ (elim (Bool-cases (is_empty (trim_space (value k)))) [
      | inl e ↦ rw e h
      | inr e ↦ elim (Bool-cases (is_mapping v)) [
        | inl m ↦ rw (e, m) (is_services-add_targets (trim_space (value k)) _ p.services e h)
        | inr m ↦ rw (e, m) h
      ]
    ])

merge_document-is_services :
    (doc : Node) (p : Plan)
    → is_services p.services ≡ true
    → is_services (merge_document doc p).services ≡ true
unfolding merge_document
merge_document-is_services doc p h = elim (Option-cases (document_mapping doc)) [
  | inl e ↦ rw (e, merge_document) h
  | inr (root, e) ↦ rw (e, merge_document) (go (mapping_value root (codes "services")))
]
  where
    go :
        (o : Option Node)
        → is_services
            (elim o as (λ _. Plan) [
              | none ↦ p
              | some (mk mapping t v s c) ↦ merge_services c p
              | some (mk _ t v s c) ↦ p
            ]).services
          ≡ true
    go none = h
    go (some (mk mapping t v s c)) = merge_services-is_services c p h
    go (some (mk _ t v s c)) = h

module _ {Data E : Type 0} (decode : Data → Option Node) (file_exists : Text → Result E Bool)
    (read_file : Text → Result E Data) where
  merge_compose-is_services :
      (p : Plan) (raw : Data)
      → is_services p.services ≡ true
      → is_services (merge_compose_port_plan decode p raw).services ≡ true
  unfolding merge_compose_port_plan
  merge_compose-is_services p raw h = elim (Option-cases (decode raw)) [
    | inl e ↦ rw (e, merge_compose_port_plan) h
    | inr (doc, e) ↦ rw (e, merge_compose_port_plan) (merge_document-is_services doc p h)
  ]

  file_merged :
      (p next : Plan) (file : Text) (exists : Bool)
      → is_services p.services ≡ true
      → (if exists
          then read_file file >>= (λ raw. ok (merge_compose_port_plan decode p raw))
          else ok p)
        ≡ ok next
      → is_services next.services ≡ true
  file_merged p next file false h e = subst (λ r. is_services r.services ≡ true) (ok-injective e) h
  file_merged p next file true h e =
      let (raw, _, same) =
        >>=-eq-ok (read_file file) (λ raw. ok (merge_compose_port_plan decode p raw)) e in
      subst (λ r. is_services r.services ≡ true) (ok-injective same)
        (merge_compose-is_services p raw h)

  -- A plan that could be read from a list of compose files, starting with a well-formed one, is
  -- well formed: each service is in it once, with a name and with at least one port, and its
  -- ports are sorted and have a fallback.
  pub inspect_files-is_services :
      (files : List Text) (p q : Plan)
      → is_services p.services ≡ true
      → inspect_files decode file_exists read_file files p ≡ ok q
      → is_services q.services ≡ true
  unfolding inspect_files
  inspect_files-is_services [] p q h done =
      subst (λ r. is_services r.services ≡ true) (ok-injective done) h
  inspect_files-is_services (file ∷ files) p q h done =
      let (exists, _, h₁) = >>=-eq-ok (file_exists file) _ done in
      let (next, merged, h₂) = >>=-eq-ok _ (inspect_files decode file_exists read_file files) h₁ in
      inspect_files-is_services files next q (file_merged p next file exists h merged) h₂
