-- ===== src/Ports/Override/Read/RoundTrip.antt =====
-- The ports that an override lists are read back from it.
use sitectl.Prelude.{
  ℕ, ◌≤◌, ◌<◌, All, Bool, true, false, not, ◌&&◌, ◌||◌, List, [], ◌∷◌, none, some, ◌++◌, ◌≡◌, refl,
  ap, ◌∙◌, arith, if◌then◌else◌, is_empty, nat_eq, all,
}
use sitectl.Text.{Text, codes, trim_left, trim_right, trim, is_space, trim_space, split, push_head}
use sitectl.Text.Number.{pos, is_digit, max_int, atoi}
use sitectl.Text.Print.{itoa, itoa_digits, itoa_cons, atoi-itoa}
use sitectl.Yaml.{sequence, Node, mk, mapping_value}
use sitectl.Yaml.Mapping.{IsMap}
use sitectl.Yaml.Update.{mapping_value-set_self}
use sitectl.Ports.{has_port}
use sitectl.Ports.Detect.{is_quote, first_part}
use sitectl.Ports.Override.{
  HostPorts, host_port_or_target, print_port, print_ports, quoted_string_node, quoted_nodes,
  set_ports_override,
}
use sitectl.Ports.Override.Read.{
  host_and_target_port, Published, published, add_published, published_items,
  host_ports_from_ports_node,
}

-- Trimming leaves a text alone that has nothing to trim.
trim_left_plain : (p : ℕ → Bool) (s : Text) → all (λ c. not (p c)) s ≡ true → trim_left p s ≡ s
unfolding trim_left
trim_left_plain p [] h = refl
trim_left_plain p (c ∷ s) h = ground arith

trim_right_plain : (p : ℕ → Bool) (s : Text) → all (λ c. not (p c)) s ≡ true → trim_right p s ≡ s
unfolding trim_right
trim_right_plain p [] h = refl
trim_right_plain p (c ∷ s) h = ground (arith, trim_right_plain p s)

trim_plain : (p : ℕ → Bool) (s : Text) → all (λ c. not (p c)) s ≡ true → trim p s ≡ s
unfolding trim
trim_plain p s h = rw (trim_left_plain p s h) (trim_right_plain p s h)

all_mono :
    (p q : ℕ → Bool) (s : Text)
    → ((c : ℕ) → p c ≡ true → q c ≡ true)
    → all p s ≡ true
    → all q s ≡ true
all_mono p q [] imp h = refl
all_mono p q (c ∷ s) imp h = ground (arith, imp c (ground arith), all_mono p q s imp (ground arith))

all-append : (p : ℕ → Bool) (s t : Text) → all p (s ++ t) ≡ (all p s && all p t)
all-append p [] t = refl
all-append p (c ∷ s) t = ground (arith, all-append p s t)

split_plain : (p : ℕ → Bool) (s : Text) → all (λ c. not (p c)) s ≡ true → split p s ≡ s ∷ []
unfolding split push_head
split_plain p [] h = refl
split_plain p (c ∷ s) h = ground (arith, split_plain p s)

split_at :
    (p : ℕ → Bool) (s : Text) (c : ℕ) (t : Text)
    → all (λ c. not (p c)) s ≡ true
    → p c ≡ true
    → split p (s ++ c ∷ t) ≡ s ∷ split p t
unfolding split push_head
split_at p [] c t h sep = ground arith
split_at p (d ∷ s) c t h sep = ground (arith, split_at p s c t)

-- A digit or a colon, as the texts that are printed consist of
is_port_char : ℕ → Bool
is_port_char c = is_digit c || nat_eq c b':'

printed : (h t : ℕ) → all is_port_char (print_port h t) ≡ true
unfolding print_port is_port_char is_digit
printed h t = ground (
  arith,
  all-append is_port_char (itoa h) (b':' ∷ itoa t),
  all_mono is_digit is_port_char (itoa h) (λ c d. ground arith) (itoa_digits h),
  all_mono is_digit is_port_char (itoa t) (λ c d. ground arith) (itoa_digits t),
)

free_of :
    (q : ℕ → Bool) (s : Text)
    → ((c : ℕ) → is_port_char c ≡ true → q c ≡ false)
    → all is_port_char s ≡ true
    → all (λ c. not (q c)) s ≡ true
free_of q s apart h = all_mono is_port_char (λ c. not (q c)) s (λ c d. rw (apart c d) refl) h

trims : (s : Text) → all is_port_char s ≡ true → (trim is_quote s ≡ s) × (trim_space s ≡ s)
unfolding trim_space is_space is_port_char is_digit
trims s h = (
  trim_plain is_quote s (free_of is_quote s (λ c d. ground arith) h),
  trim_plain is_space s (free_of is_space s (λ c d. ground arith) h),
)

digits-port_chars : (n : ℕ) → all is_port_char (itoa n) ≡ true
unfolding is_port_char
digits-port_chars n = all_mono is_digit is_port_char (itoa n) (λ c d. ground arith) (itoa_digits n)

read_number : (n : ℕ) → n ≤ max_int → atoi (trim_space (itoa n)) ≡ some (pos n)
read_number n fits = rw ((trims (itoa n) (digits-port_chars n)).1) (atoi-itoa n fits)

parts_of_port : (h t : ℕ) → split (λ c. nat_eq c b':') (print_port h t) ≡ itoa h ∷ itoa t ∷ []
unfolding print_port
parts_of_port h t =
    let plain : (n : ℕ) → all (λ c. not (nat_eq c b':')) (itoa n) ≡ true = λ n.
      all_mono is_digit (λ c. not (nat_eq c b':')) (itoa n) (λ c d. unfold is_digit in ground arith)
        (itoa_digits n) in
    split_at (λ c. nat_eq c b':') (itoa h) b':' (itoa t) (plain h) refl
    ∙ ap (λ ps. itoa h ∷ ps) (split_plain (λ c. nat_eq c b':') (itoa t) (plain t))

first-print_port :
    (h t : ℕ) → first_part (split (λ c. nat_eq c b'/') (print_port h t)) ≡ print_port h t
first-print_port h t = ap first_part (
    split_plain (λ c. nat_eq c b'/') (print_port h t)
      (free_of (λ c. nat_eq c b'/') (print_port h t)
        (λ c d. unfold is_port_char is_digit in ground arith) (printed h t)))

print_port_filled : (h t : ℕ) → is_empty (print_port h t) ≡ false
unfolding print_port
print_port_filled h t = let (c, s, p) = itoa_cons h in rw p refl

-- A printed pair of ports is read back as that pair, if both fit an int.
host_and_target_port-print_port :
    (h t : ℕ)
    → h ≤ max_int
    → t ≤ max_int
    → host_and_target_port (print_port h t) ≡ record { host = pos h; target = pos t }
unfolding host_and_target_port
host_and_target_port-print_port h t fits_h fits_t =
    let (quotes, spaces) = trims (print_port h t) (printed h t) in
    rw (
      quotes,
      spaces,
      print_port_filled h t,
      first-print_port h t,
      parts_of_port h t,
      read_number h fits_h,
      read_number t fits_t,
    )

-- The targets' host ports, as the list of what was read
abbrev pub read_back : HostPorts → List ℕ → Published → Published
read_back hosts [] out = out
read_back hosts (t ∷ ts) out =
    read_back hosts ts (record { host = pos (host_port_or_target hosts t); target = pos t } ∷ out)

abbrev pub Fits : HostPorts → ℕ → Type 0
Fits hosts t =
    (0 < t)
    × (t ≤ max_int)
    × (0 < host_port_or_target hosts t)
    × (host_port_or_target hosts t ≤ max_int)

added :
    (h t : ℕ) (out : Published)
    → 0 < h
    → 0 < t
    → h ≤ max_int
    → t ≤ max_int
    → add_published (quoted_string_node (print_port h t)) out
      ≡ record { host = pos h; target = pos t } ∷ out
unfolding add_published
added h t out h_pos t_pos h_fits t_fits =
    rw (host_and_target_port-print_port h t h_fits t_fits) (ground arith)

read_items :
    (hosts : HostPorts) (ts : List ℕ) (out : Published)
    → All (Fits hosts) ts
    → published_items (quoted_nodes (print_ports hosts ts)) out ≡ read_back hosts ts out
unfolding published_items quoted_nodes print_ports
read_items hosts [] out h = refl
read_items hosts (t ∷ ts) out ((t_pos, t_fits, h_pos, h_fits), h) =
    ap (published_items (quoted_nodes (print_ports hosts ts)))
      (added (host_port_or_target hosts t) t out h_pos t_pos h_fits t_fits)
    ∙ read_items hosts ts _ h

published-read_back :
    (hosts : HostPorts) (ts : List ℕ) (out : Published) (k : ℕ)
    → published (read_back hosts ts out) (pos k)
      ≡ (if has_port k ts then some (pos (host_port_or_target hosts k)) else published out (pos k))
unfolding published
published-read_back hosts [] out k = refl
published-read_back hosts (t ∷ ts) out k =
    published-read_back hosts ts
      (record { host = pos (host_port_or_target hosts t); target = pos t } ∷ out) k
    ∙ ground (arith, λ (e : t ≡ k). ap (host_port_or_target hosts) e)

-- The ports that are written into a service, a mapping, are read back: the host port of each
-- target that is written is the one that was chosen for it, and no other target has one, if all
-- the numbers are positive and fit an int.
pub published-set_ports_override :
    (hosts : HostPorts) (ts : List ℕ) (service : Node) (k : ℕ)
    → IsMap service
    → All (Fits hosts) ts
    → published
        (host_ports_from_ports_node
          (mapping_value (set_ports_override service (print_ports hosts ts)) (codes "ports")))
        (pos k)
      ≡ (if has_port k ts then some (pos (host_port_or_target hosts k)) else none)
unfolding set_ports_override host_ports_from_ports_node published
published-set_ports_override hosts ts service k m fits =
    rw
      (mapping_value-set_self service (codes "ports")
        (mk sequence (codes "!override") [] 0 (quoted_nodes (print_ports hosts ts))) m)
      (rw (read_items hosts ts [] fits) (published-read_back hosts ts [] k))
