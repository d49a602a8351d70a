-- ===== src/Access/IpFilter.antt =====
-- app/api/v1/dependencies.py: `ip_filter`, over the two settings that it reads.
use ollama_proxy_server.Prelude.{
  ◌≡◌, ◌⊎◌, refl, inl, inr, Bool, true, false, not, ◌&&◌, List, [], ◌∷◌, map, String, http, Result,
  ok, err, arith, str_eq, eq_iff, strip, split, is_nil, filter, any, is_empty, if◌then◌else◌, ◌↔◌,
  In,
}

-- `[ip.strip() for ip in setting.split(",") if ip.strip()]`
unfoldable pub address_list : String → List String
address_list setting = map strip (filter (λ ip. not (is_nil (strip ip))) (split 44 setting))

-- `ip in ips`
unfoldable pub member : String → List String → Bool
member ip ips = any (str_eq ip) ips

-- the two tests, on the lists that the settings give
admit : List String → List String → String → Result Bool
admit allowed_ips denied_ips client_ip =
    if not (member "*" allowed_ips)
      && not (is_empty allowed_ips)
      && not (member client_ip allowed_ips)
    then err (http 403 "IP address not allowed")
    else if not (is_empty denied_ips) && member client_ip denied_ips
    then err (http 403 "IP address has been blocked")
    else ok true

unfoldable pub ip_filter : String → String → String → Result Bool
unfolding admit
ip_filter allowed_setting denied_setting client_ip =
    admit (address_list allowed_setting) (address_list denied_setting) client_ip

member_iff : (ip : String) (ips : List String) → (member ip ips ≡ true) ↔ In ip ips
unfolding member any
member_iff ip [] = ground arith
member_iff ip (x ∷ ips) = ground (arith, member_iff ip ips, eq_iff ip x)

abbrev pub Admitted : List String → List String → String → Type 0
Admitted allowed denied ip = ¬ In ip denied × ((allowed ≡ []) ⊎ In "*" allowed ⊎ In ip allowed)

-- `ground` splits on the tests; the membership of each list is a fact about its Boolean test.
admit_sound :
    (allowed denied : List String) (ip : String)
    → admit allowed denied ip ≡ ok true
    → Admitted allowed denied ip
unfolding admit
admit_sound [] [] ip h = ground arith
admit_sound [] (y ∷ denied) ip h = ground (arith, member_iff ip (y ∷ denied))
admit_sound (x ∷ allowed) [] ip h =
    ground (arith, member_iff "*" (x ∷ allowed), member_iff ip (x ∷ allowed))
admit_sound (x ∷ allowed) (y ∷ denied) ip h =
    ground
      (arith, member_iff "*" (x ∷ allowed), member_iff ip (x ∷ allowed), member_iff ip (y ∷ denied))

admit_complete :
    (allowed denied : List String) (ip : String)
    → Admitted allowed denied ip
    → admit allowed denied ip ≡ ok true
unfolding admit
admit_complete [] [] ip h = ground arith
admit_complete [] (y ∷ denied) ip h = ground (arith, member_iff ip (y ∷ denied), member_iff "*" [])
admit_complete (x ∷ allowed) [] ip h =
    ground (arith, member_iff "*" (x ∷ allowed), member_iff ip (x ∷ allowed))
admit_complete (x ∷ allowed) (y ∷ denied) ip h =
    ground
      (arith, member_iff "*" (x ∷ allowed), member_iff ip (x ∷ allowed), member_iff ip (y ∷ denied))

-- `admit` lets through or answers 403.
admit_or_403 :
    (allowed denied : List String) (ip : String)
    → (admit allowed denied ip ≡ ok true)
      ⊎ ((detail : String) × (admit allowed denied ip ≡ err (http 403 detail)))
unfolding admit
admit_or_403 allowed denied ip =
    go (not (member "*" allowed) && not (is_empty allowed) && not (member ip allowed))
      (not (is_empty denied) && member ip denied)
  where
    go :
        (unlisted blocked : Bool)
        → (let result : Result Bool =
              if unlisted
              then err (http 403 "IP address not allowed")
              else if blocked
              then err (http 403 "IP address has been blocked")
              else ok true in
            (result ≡ ok true) ⊎ ((detail : String) × (result ≡ err (http 403 detail))))
    go true blocked = inr ("IP address not allowed", refl)
    go false true = inr ("IP address has been blocked", refl)
    go false false = inl refl

-- An address is either let through, and then it is not on the deny-list, and the allow-list is empty or
-- holds a star or the address; or that is not so, and then it is refused with 403.
pub ip_filter_cases :
    (allowed denied ip : String)
    → ((ip_filter allowed denied ip ≡ ok true)
        × Admitted (address_list allowed) (address_list denied) ip)
      ⊎ ((¬ Admitted (address_list allowed) (address_list denied) ip)
          × (detail : String) × (ip_filter allowed denied ip ≡ err (http 403 detail)))
unfolding ip_filter
ip_filter_cases allowed denied ip =
    elim (admit_or_403 (address_list allowed) (address_list denied) ip) [
      | inl through ↦ inl (through, admit_sound _ _ ip through)
      | inr (detail, refused) ↦
          inr (λ admitted. let through = admit_complete _ _ ip admitted in cc, detail, refused)
    ]
