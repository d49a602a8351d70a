-- ===== src/Proxy/Routing/Candidates.antt =====
-- Lists of servers with different ids: what leaving one out does to them, and which are candidates.
use mathlib.Core.List.{Perm}
use mathlib.Core.List.Perm
use ollama_proxy_server.Prelude.{
  ◌&&◌, is_empty, ℕ, zero, suc, ◌<◌, ◌≡◌, ◌≢◌, refl, ◌∙◌, ap, sym, subst, inl, inr, Bool, true,
  false, not, some, List, [], ◌∷◌, ◌==◌, filter, length, length-filter-le, get_elem?, All,
  All-filter_keep, In, arith, Bool-cases,
}
use ollama_proxy_server.Proxy.Backend.{HealthCache, is_server_healthy_cached, OllamaServer}
use ollama_proxy_server.Proxy.Routing.{candidate_servers, without}

-- No two servers of the list have the same id.
abbrev pub Distinct : List OllamaServer → Type 0
Distinct [] = Unit
Distinct (s ∷ servers) = All (λ t. t.id ≢ s.id) servers × Distinct servers

module _ {A : Type 0} (p : A → Bool) (x : A) (xs : List A) where
  filter-keep : p x ≡ true → filter p (x ∷ xs) ≡ x ∷ filter p xs
  unfolding filter
  filter-keep e = rw e refl

  filter-drop : p x ≡ false → filter p (x ∷ xs) ≡ filter p xs
  unfolding filter
  filter-drop e = rw e refl

not_same : (m n : ℕ) → m ≡ n → not (m == n) ≡ false
not_same m n h = ground (arith, h)

not_other : (m n : ℕ) → m ≢ n → not (m == n) ≡ true
not_other m n h = ground (arith, h)

pub In-filter : {A : Type 0} (p : A → Bool) (a : A) (xs : List A) → In a (filter p xs) → In a xs
unfolding filter
In-filter p a [] h = h
In-filter p a (x ∷ xs) h = elim (Bool-cases (p x)) [
  | inl e ↦ elim (subst (In a) (filter-keep p x xs e) h) [
    | inl same ↦ inl same
    | inr more ↦ inr (In-filter p a xs more)
  ]
  | inr e ↦ inr (In-filter p a xs (subst (In a) (filter-drop p x xs e) h))
]

pub get_elem?-In : {A : Type 0} (a : A) (xs : List A) (i : ℕ) → get_elem? xs i ≡ some a → In a xs
get_elem?-In a [] i e = cc
get_elem?-In a (x ∷ xs) zero e = inl cc
get_elem?-In a (x ∷ xs) (suc i) e = inr (get_elem?-In a xs i e)

pub get_elem?_lt :
    {A : Type 0} (xs : List A) (i : ℕ) → i < length xs → (a : A) × (get_elem? xs i ≡ some a)
get_elem?_lt [] i h = absurd (omega (arith, h))
get_elem?_lt (x ∷ xs) zero h = (x, refl)
get_elem?_lt (x ∷ xs) (suc i) h = get_elem?_lt xs i (omega (arith, h))

pub Distinct-filter :
    (p : OllamaServer → Bool) (servers : List OllamaServer)
    → Distinct servers
    → Distinct (filter p servers)
unfolding filter
Distinct-filter p [] h = tt
Distinct-filter p (s ∷ servers) h = elim (Bool-cases (p s)) [
  | inl e ↦ rw e (All-filter_keep _ p servers h.0, Distinct-filter p servers h.1)
  | inr e ↦ rw e (Distinct-filter p servers h.1)
]

id_of : OllamaServer → ℕ
id_of s = s.id

without-All :
    (c : OllamaServer) (servers : List OllamaServer)
    → All (λ t. t.id ≢ c.id) servers
    → without c servers ≡ servers
unfolding without
without-All c [] h = unfold filter in refl
without-All c (s ∷ servers) h =
    filter-keep _ s servers (not_other s.id c.id h.0)
    ∙ ap (λ rest. s ∷ rest) (without-All c servers h.1)

All-get : {A : Type 0} (P : A → Type 0) (a : A) (xs : List A) → All P xs → In a xs → P a
All-get P a [] h k = absurd k
All-get P a (x ∷ xs) h (inl e) = subst P (sym e) h.0
All-get P a (x ∷ xs) h (inr k) = All-get P a xs h.1 k

-- Leaving out a server that stands in the list takes out just that one.
pub without-Perm :
    (c : OllamaServer) (servers : List OllamaServer)
    → Distinct servers
    → In c servers
    → Perm servers (c ∷ without c servers)
unfolding without id_of
without-Perm c [] d h = absurd h
without-Perm c (s ∷ servers) d (inl e) =
    let gone : without c (s ∷ servers) ≡ servers =
      filter-drop _ s servers (not_same s.id c.id (ap id_of (sym e)))
      ∙ without-All c servers
          (subst (λ (t : OllamaServer). All (λ u. u.id ≢ t.id) servers) (sym e) d.0) in
    subst (λ rest. Perm (s ∷ servers) (c ∷ rest)) (sym gone)
      (subst (λ t. Perm (s ∷ servers) (t ∷ servers)) (sym e) (Perm.refl (s ∷ servers)))
without-Perm c (s ∷ servers) d (inr h) =
    let kept : without c (s ∷ servers) ≡ s ∷ without c servers =
      filter-keep _ s servers (not_other s.id c.id (λ e. All-get _ c servers d.0 h (sym e))) in
    subst (λ rest. Perm (s ∷ servers) (c ∷ rest)) (sym kept)
      (Perm.trans (Perm.cons s (without-Perm c servers d.1 h)) (Perm.swap c s (without c servers)))

pub length-without-lt :
    (c : OllamaServer) (servers : List OllamaServer)
    → In c servers
    → length (without c servers) < length servers
unfolding without id_of
length-without-lt c [] h = absurd h
length-without-lt c (s ∷ servers) (inl e) =
    rw (filter-drop (λ t. not (t.id == c.id)) s servers (not_same s.id c.id (ap id_of (sym e))))
      (omega (arith, length-filter-le (λ t. not (t.id == c.id)) servers))
length-without-lt c (s ∷ servers) (inr h) = elim (Bool-cases (not (s.id == c.id))) [
  | inl e ↦
      rw (filter-keep (λ t. not (t.id == c.id)) s servers e)
        (omega (arith, length-without-lt c servers h))
  | inr e ↦
      rw (filter-drop (λ t. not (t.id == c.id)) s servers e)
        (omega (arith, length-without-lt c servers h))
]

pub Distinct-without :
    (c : OllamaServer) (servers : List OllamaServer)
    → Distinct servers
    → Distinct (without c servers)
unfolding without
Distinct-without c servers d = Distinct-filter _ servers d

true-false : true ≢ false
true-false h = cc

active_of_healthy :
    (p : OllamaServer → Bool) (servers : List OllamaServer)
    → is_empty (filter (λ s. s.is_active) servers) ≡ true
    → is_empty (filter (λ s. s.is_active && p s) servers) ≡ true
unfolding filter
active_of_healthy p [] e = refl
active_of_healthy p (s ∷ servers) e = ground (arith, active_of_healthy p servers)

-- A candidate is an active server, and there is one if there is an active server.
pub candidate_servers_cases :
    (now : ℕ) (cache : HealthCache) (servers : List OllamaServer)
    → is_empty (candidate_servers now cache servers) ≡ is_empty (filter (λ s. s.is_active) servers)
unfolding candidate_servers
candidate_servers_cases now cache servers =
    let fresh : OllamaServer → Bool = λ s. is_server_healthy_cached now cache s.id in
    elim (Bool-cases (is_empty (filter (λ s. s.is_active && fresh s) servers))) [
      | inl e ↦ rw e refl
      | inr e ↦ rw e (elim (Bool-cases (is_empty (filter (λ s. s.is_active) servers))) [
        | inl a ↦ absurd (true-false (sym (active_of_healthy fresh servers a) ∙ e))
        | inr a ↦ e ∙ sym a
      ])
    ]

pub Distinct-candidate_servers :
    (now : ℕ) (cache : HealthCache) (servers : List OllamaServer)
    → Distinct servers
    → Distinct (candidate_servers now cache servers)
unfolding candidate_servers
Distinct-candidate_servers now cache servers d =
    elim (Bool-cases
      (is_empty (filter (λ s. s.is_active && is_server_healthy_cached now cache s.id) servers))) [
        | inl e ↦ rw e (Distinct-filter _ servers d)
        | inr e ↦ rw e (Distinct-filter _ servers d)
      ]
