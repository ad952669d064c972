-- ===== src/Dependencies/Packages.antt =====
-- Which Composer packages a component asks for.
use sitectl.Prelude.{
  Bool, true, false, not, ◌&&◌, List, [], ◌∷◌, ◌≡◌, refl, ap, arith, inl, inr, Bool-cases, any,
}
use sitectl.Text.{Text, ◌==◌}
use sitectl.Text.Equality.{eq_refl, eq_sound}
use sitectl.Dependencies.{
  Module, has_package, is_wanted, packages_loop, composer_packages, composer_packages_for_enable,
  strict_composer_packages,
}

-- No package twice
abbrev pub is_distinct : List Text → Bool
is_distinct [] = true
is_distinct (p ∷ ps) = not (has_package p ps) && is_distinct ps

-- Some module wants the package.
abbrev pub wanted_by : Bool → Text → List Module → Bool
wanted_by strict_only p ms = any (λ m. is_wanted strict_only m && m.composer_package == p) ms

-- The loop lists what is wanted and has not been seen.
loop_lists :
    (strict_only : Bool) (p : Text) (seen : List Text) (ms : List Module)
    → has_package p (packages_loop strict_only seen ms)
      ≡ (wanted_by strict_only p ms && not (has_package p seen))
unfolding packages_loop
loop_lists strict_only p seen [] = refl
loop_lists strict_only p seen (m ∷ ms) = elim (Bool-cases (m.composer_package == p)) [
  | inl e ↦
      let same = eq_sound m.composer_package p e in
      let also : has_package m.composer_package seen ≡ has_package p seen =
        ap (λ q. has_package q seen) same in
      ground (
        arith,
        also,
        loop_lists strict_only p seen ms,
        loop_lists strict_only p (m.composer_package ∷ seen) ms,
      )
  | inr e ↦ ground (
    arith,
    loop_lists strict_only p seen ms,
    loop_lists strict_only p (m.composer_package ∷ seen) ms,
  )
]

loop_distinct :
    (strict_only : Bool) (seen : List Text) (ms : List Module)
    → is_distinct (packages_loop strict_only seen ms) ≡ true
unfolding packages_loop
loop_distinct strict_only seen [] = refl
loop_distinct strict_only seen (m ∷ ms) = ground (
  arith,
  loop_distinct strict_only seen ms,
  loop_distinct strict_only (m.composer_package ∷ seen) ms,
  loop_lists strict_only m.composer_package (m.composer_package ∷ seen) ms,
  eq_refl m.composer_package,
)

-- composerPackages lists no package twice, and lists a package exactly if some module that it is
-- asked for names it: one whose mode is strict, or, unless only these are asked for, empty or
-- enable-only.
pub composer_packages-lists :
    (modules : List Module) (strict_only : Bool) (p : Text)
    → (is_distinct (composer_packages modules strict_only) ≡ true)
      × (has_package p (composer_packages modules strict_only) ≡ wanted_by strict_only p modules)
unfolding composer_packages
composer_packages-lists modules strict_only p =
    (loop_distinct strict_only [] modules, ground (arith, loop_lists strict_only p [] modules))

strict_wanted :
    (p : Text) (ms : List Module) → wanted_by true p ms ≡ true → wanted_by false p ms ≡ true
strict_wanted p [] h = h
strict_wanted p (m ∷ ms) h = ground (arith, strict_wanted p ms)

-- A package that is strictly needed is also among those to enable.
strict_composer_packages-for_enable :
    (modules : List Module) (p : Text)
    → has_package p (strict_composer_packages modules) ≡ true
    → has_package p (composer_packages_for_enable modules) ≡ true
strict_composer_packages-for_enable modules p h =
    let strict = composer_packages-lists modules true p in
    let enable = composer_packages-lists modules false p in
    ground (arith, strict.1, enable.1, strict_wanted p modules)
