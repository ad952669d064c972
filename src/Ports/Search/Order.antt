-- ===== src/Ports/Search/Order.antt =====
-- The order in which the search tries the ports, and what its answers mean.
use sitectl.Prelude.{
  ℕ, zero, suc, ◌+◌, ◌≤◌, ◌<◌, Bool, true, false, List, [], ◌∷◌, ◌++◌, ◌≡◌, sym, ap, ◌∙◌, ◌⊎◌, inl,
  inr, arith, Bool-cases, append_assoc, append-nil, All,
}
use sitectl.Result.{Result, ok, err, is_ok, ok-injective, Result-cases}
use sitectl.Ports.{http_port, https_port}
use sitectl.Ports.Search.{
  Status, Skip, NoPort, Found, is_available, next_port, search, resolve_local_dev_port,
  max_port_search_attempts,
}

-- The port of the n-th attempt
unfoldable pub attempt : ℕ → ℕ → ℕ → ℕ
attempt fallback port zero = port
attempt fallback port (suc n) = attempt fallback (next_port fallback port) n

-- The messages of the first n attempts
unfoldable pub skips : ℕ → ℕ → ℕ → List Skip
skips fallback port zero = []
skips fallback port (suc n) =
    record { used = port; next = next_port fallback port }
    ∷ skips fallback (next_port fallback port) n

module _ {E : Type 0} (tcp_port_in_use : ℕ → Bool) (docker_use : ℕ → Result E Status)
    (fallback : ℕ) where
  abbrev pub available : ℕ → Bool
  available port = is_available (tcp_port_in_use port) (docker_use port)

  -- The search stops at the n-th attempt: the first whose port is available.
  abbrev StopsAt : ℕ → ℕ → ℕ → Type 0
  StopsAt start attempts n =
      (n < attempts)
      × (available (attempt fallback start n) ≡ true)
      × ((j : ℕ) → j < n → available (attempt fallback start j) ≡ false)

  search-ok :
      (start attempts port : ℕ) (before : List Skip) (found : Found)
      → search tcp_port_in_use docker_use fallback start attempts port before ≡ ok found
      → (n : ℕ) × StopsAt port attempts n
        × (found.port ≡ attempt fallback port n)
        × (found.skipped ≡ before ++ skips fallback port n)
  unfolding search attempt skips
  search-ok start zero port before found h = absurd (cc h)
  search-ok start (suc attempts) port before found h = elim (Bool-cases (available port)) [
    | inl e ↦
        let same : record { port = port; skipped = before } ≡ found =
          ok-injective (rw (e, search) at h) in
        (
          0,
          (omega arith, e, (λ j lt. absurd (omega arith))),
          ap (λ f. f.port) (sym same),
          ap (λ f. f.skipped) (sym same) ∙ sym (append-nil before),
        )
    | inr e ↦
        let (n, (below, there, earlier), is_port, is_skipped) =
          search-ok start attempts (next_port fallback port)
            (before ++ record { used = port; next = next_port fallback port } ∷ []) found
            (rw (e, search) at h) in
        (
          suc n,
          (omega arith, there, (λ j lt. earlier_too port n e earlier j lt)),
          is_port,
          is_skipped ∙ append_assoc before _ _,
        )
  ]
    where
      earlier_too :
          (p n : ℕ)
          → available p ≡ false
          → ((j : ℕ) → j < n → available (attempt fallback (next_port fallback p) j) ≡ false)
          → (j : ℕ) → j < suc n
          → available (attempt fallback p j) ≡ false
      earlier_too p n e earlier zero lt = e
      earlier_too p n e earlier (suc j) lt = earlier j (omega arith)

  skips_busy :
      (port n : ℕ)
      → ((j : ℕ) → j < n → available (attempt fallback port j) ≡ false)
      → All (λ s. available s.used ≡ false) (skips fallback port n)
  unfolding skips attempt
  skips_busy port zero earlier = tt
  skips_busy port (suc n) earlier = (
    earlier 0 (omega arith),
    skips_busy (next_port fallback port) n (λ j lt. earlier (suc j) (omega arith)),
  )

  search-err :
      (start attempts port : ℕ) (before : List Skip) (none_left : NoPort)
      → search tcp_port_in_use docker_use fallback start attempts port before ≡ err none_left
      → (j : ℕ) → j < attempts
      → available (attempt fallback port j) ≡ false
  unfolding search attempt
  search-err start zero port before none_left h j lt = absurd (omega arith)
  search-err start (suc attempts) port before none_left h zero lt =
      elim (Bool-cases (available port)) [ inl e ↦ absurd (cc (rw (e, search) at h)) | inr e ↦ e ]
  search-err start (suc attempts) port before none_left h (suc j) lt =
      elim (Bool-cases (available port)) [
        | inl e ↦ absurd (cc (rw (e, search) at h))
        | inr e ↦
            search-err start attempts (next_port fallback port)
              (before ++ record { used = port; next = next_port fallback port } ∷ []) none_left
              (rw (e, search) at h) j (omega arith)
      ]

-- The ports after the first: the fallback and those behind it
attempt_above : (fallback port n : ℕ) → https_port < port → attempt fallback port n ≡ port + n
unfolding attempt next_port
attempt_above fallback port zero h = omega arith
attempt_above fallback port (suc n) h =
    ap (λ p. attempt fallback p n) (ground arith)
    ∙ attempt_above fallback (port + 1) n (omega arith)
    ∙ omega arith

attempt-suc :
    (fallback port n : ℕ)
    → https_port < fallback
    → (port ≡ http_port) ⊎ (port ≡ https_port)
    → attempt fallback port (suc n) ≡ fallback + n
unfolding attempt next_port
attempt-suc fallback port n h start =
    ap (λ p. attempt fallback p n) (ground arith) ∙ attempt_above fallback fallback n h

module _ {E : Type 0} (tcp_port_in_use : ℕ → Bool) (docker_use : ℕ → Result E Status)
    (fallback start : ℕ) where
  -- If resolveLocalDevPort finds a port, then it is available, it is the first such among the ports
  -- that are tried, and each port tried before is in a message, in order.
  pub resolve_local_dev_port-ok :
      (found : Found)
      → resolve_local_dev_port tcp_port_in_use docker_use fallback start ≡ ok found
      → (n : ℕ) × (n < max_port_search_attempts)
        × (found.port ≡ attempt fallback start n)
        × (found.skipped ≡ skips fallback start n)
        × (available tcp_port_in_use docker_use fallback found.port ≡ true)
        × All (λ s. available tcp_port_in_use docker_use fallback s.used ≡ false) found.skipped
  unfolding resolve_local_dev_port
  resolve_local_dev_port-ok found h =
      let (n, (below, there, earlier), is_port, is_skipped) =
        search-ok tcp_port_in_use docker_use fallback start max_port_search_attempts start [] found
          h in
      (
        n,
        below,
        is_port,
        is_skipped,
        rw is_port there,
        rw is_skipped (skips_busy tcp_port_in_use docker_use fallback start n earlier),
      )

  -- resolveLocalDevPort finds a port whenever one of the 200 ports that it may try is available.
  pub resolve_local_dev_port-finds :
      (n : ℕ)
      → n < max_port_search_attempts
      → is_available
          (tcp_port_in_use (attempt fallback start n))
          (docker_use (attempt fallback start n))
        ≡ true
      → is_ok (resolve_local_dev_port tcp_port_in_use docker_use fallback start) ≡ true
  unfolding resolve_local_dev_port
  resolve_local_dev_port-finds n lt here =
      elim (Result-cases (resolve_local_dev_port tcp_port_in_use docker_use fallback start)) [
        | inl (found, p) ↦ ap is_ok p
        | inr (none_left, p) ↦
            let busy =
              search-err tcp_port_in_use docker_use fallback start max_port_search_attempts start []
                none_left p n lt in
            absurd (cc)
      ]

  -- For one of the two ports that a plan holds, and a fallback above them, a port that is found
  -- is that port itself, or one of the 199 ports from the fallback on.
  pub resolve_local_dev_port_bound :
      (found : Found)
      → https_port < fallback
      → (start ≡ http_port) ⊎ (start ≡ https_port)
      → resolve_local_dev_port tcp_port_in_use docker_use fallback start ≡ ok found
      → (found.port ≡ start) ⊎ ((fallback ≤ found.port) × (found.port < fallback + 199))
  unfolding attempt
  resolve_local_dev_port_bound found high named h =
      let (n, below, is_port, _, _, _) = resolve_local_dev_port-ok found h in go n below is_port
    where
      go :
          (n : ℕ)
          → n < max_port_search_attempts
          → found.port ≡ attempt fallback start n
          → (found.port ≡ start) ⊎ ((fallback ≤ found.port) × (found.port < fallback + 199))
      go zero below p = inl p
      go (suc n) below p =
          let q = p ∙ attempt-suc fallback start n high named in
          inr (omega (arith, q), omega (arith, q))
