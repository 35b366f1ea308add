-- ===== src/Address.antt =====
-- `hasPort`, `ensurePort` and `resolveAddr` of src/misc/util.cpp, over the bytes of a text.
-- `to_string`, `stoul` (which may throw: `none`) and `inet_pton` are the library's and the
-- system's.
use cpp_gossip.Base.{
  ℕ, suc, ◌+◌, ◌≡◌, ◌≢◌, refl, ap, Bool, true, false, Option, none, some, List, [], ◌∷◌, ◌++◌, take,
  drop, ◌==◌, if◌then◌else◌, arith, All, length,
}
use native.Mathlib.Numerals.{add-one}
use cpp_gossip.Config.{default_port}
use cpp_gossip.Handoff.{SockAddr}

abbrev pub later : Option ℕ → Option ℕ
later none = none
later (some i) = some (suc i)

-- `s.find(c)`
unfoldable pub find : ℕ → List ℕ → Option ℕ
find c [] = none
find c (x ∷ xs) = if x == c then some 0 else later (find c xs)

abbrev pub colon : ℕ
colon = b':'

abbrev pub slash : ℕ
slash = b'/'

unfoldable pub has_port : List ℕ → Bool
has_port s = elim (find colon s) [ none ↦ false | some _ ↦ true ]

module _ (to_string : ℕ → List ℕ) where
  unfoldable pub ensure_port : List ℕ → ℕ → List ℕ
  ensure_port s port = if has_port s then s else s ++ (colon ∷ to_string port)

  -- The part of the address from the slash on, or all of it.
  unfoldable pub host_of : List ℕ → List ℕ
  host_of s = elim (find slash s) [ none ↦ s | some i ↦ drop i s ]

  abbrev pub split_at : List ℕ → Option ℕ → List ℕ × List ℕ
  split_at s none = (s, s)
  split_at s (some i) = (take i s, drop (i + 1) s)

  -- The texts that are read as an address and as a port. There is a colon (`ensurePort`); were there
  -- none, `index` would be -1, and both would be the whole text.
  unfoldable pub address_parts : List ℕ → List ℕ × List ℕ
  address_parts s =
      let host = ensure_port (host_of s) default_port in split_at host (find colon host)

  module _ (stoul : List ℕ → Option ℕ) (inet_pton : List ℕ → Option ℕ) (htons : ℕ → ℕ) where
    unfoldable pub resolve_addr : List ℕ → Option SockAddr
    resolve_addr s =
        let (ip, port) = address_parts s in
        elim (stoul port) [
          | none ↦ none
          | some n ↦ some (record {
            sin_addr = elim (inet_pton ip) [ none ↦ 0 | some a ↦ a ];
            sin_port = htons n;
          })
        ]

find_absent : (c : ℕ) (s : List ℕ) → All (λ x. x ≢ c) s → find c s ≡ none
unfolding find
find_absent c [] h = refl
find_absent c (x ∷ s) h = ground (arith, find_absent c s h.1)

find_first :
    (c : ℕ) (s rest : List ℕ) → All (λ x. x ≢ c) s → find c (s ++ (c ∷ rest)) ≡ some (length s)
unfolding find
find_first c [] rest h = ground arith
find_first c (x ∷ s) rest h = ground (arith, find_first c s rest h.1)

take-length-append : (s rest : List ℕ) → take (length s) (s ++ rest) ≡ s
take-length-append [] rest = refl
take-length-append (x ∷ s) rest = ap (◌∷◌ x) (take-length-append s rest)

drop-length-append : (s rest : List ℕ) → drop (length s) (s ++ rest) ≡ rest
drop-length-append [] rest = refl
drop-length-append (x ∷ s) rest = drop-length-append s rest

drop-suc-append : (c : ℕ) (s rest : List ℕ) → drop (length s + 1) (s ++ (c ∷ rest)) ≡ rest
drop-suc-append c s rest = rw add-one (go s)
  where
    go : (s : List ℕ) → drop (suc (length s)) (s ++ (c ∷ rest)) ≡ rest
    go [] = refl
    go (x ∷ s) = go s

module _ (to_string : ℕ → List ℕ) where
  split_at-colon :
      (ip port : List ℕ)
      → All (λ x. x ≢ colon) ip
      → split_at to_string (ip ++ (colon ∷ port)) (find colon (ip ++ (colon ∷ port))) ≡ (ip, port)
  split_at-colon ip port h = rw (
    find_first colon ip port h,
    take-length-append ip (colon ∷ port),
    drop-suc-append colon ip port,
  )

  host_of_plain : (s : List ℕ) → find slash s ≡ none → host_of to_string s ≡ s
  unfolding host_of
  host_of_plain s e = ground arith

  host_of-slash : (s : List ℕ) (i : ℕ) → find slash s ≡ some i → host_of to_string s ≡ drop i s
  unfolding host_of
  host_of-slash s i e = ground arith

  ensure_port-none :
      (s : List ℕ) (port : ℕ)
      → find colon s ≡ none
      → ensure_port to_string s port ≡ s ++ (colon ∷ to_string port)
  unfolding ensure_port has_port
  ensure_port-none s port e = ground arith

  ensure_port-some :
      (s : List ℕ) (port i : ℕ) → find colon s ≡ some i → ensure_port to_string s port ≡ s
  unfolding ensure_port has_port
  ensure_port-some s port i e = ground arith

  -- An address with neither slash nor colon is read whole, with the default port.
  pub address_parts_bare :
      (ip : List ℕ)
      → All (λ x. x ≢ slash) ip
      → All (λ x. x ≢ colon) ip
      → address_parts to_string ip ≡ (ip, to_string default_port)
  unfolding address_parts
  address_parts_bare ip s c =
      rw
        (
          host_of_plain ip (find_absent slash ip s),
          ensure_port-none ip default_port (find_absent colon ip c),
        )
        (split_at-colon ip (to_string default_port) c)

  -- An address and a port with a colon between them, and no slash, are read as the two.
  pub address_parts_port :
      (ip port : List ℕ)
      → All (λ x. x ≢ slash) (ip ++ (colon ∷ port))
      → All (λ x. x ≢ colon) ip
      → address_parts to_string (ip ++ (colon ∷ port)) ≡ (ip, port)
  unfolding address_parts
  address_parts_port ip port s c =
      rw
        (
          host_of_plain _ (find_absent slash (ip ++ (colon ∷ port)) s),
          ensure_port-some (ip ++ (colon ∷ port)) default_port _ (find_first colon ip port c),
        )
        (split_at-colon ip port c)

  -- With a node name before a slash, what is read as the address begins with the slash, whether or not
  -- a port follows after a colon; without one, the port is the default. The name has no slash, and the
  -- address no colon.
  pub address_parts_named :
      (name ip port : List ℕ)
      → All (λ x. x ≢ slash) name
      → All (λ x. x ≢ colon) ip
      → (address_parts to_string (name ++ (slash ∷ (ip ++ (colon ∷ port)))) ≡ (slash ∷ ip, port))
        × (address_parts to_string (name ++ (slash ∷ ip)) ≡ (slash ∷ ip, to_string default_port))
  unfolding address_parts
  address_parts_named name ip port s c =
      let c' : All (λ x. x ≢ colon) (slash ∷ ip) = (omega arith, c) in
      let tail = ip ++ (colon ∷ port) in
      (
        rw
            (
              host_of-slash (name ++ (slash ∷ tail)) (length name) (find_first slash name tail s),
              drop-length-append name (slash ∷ tail),
              ensure_port-some (slash ∷ tail) default_port _
                  (find_first colon (slash ∷ ip) port c'),
            )
            (split_at-colon (slash ∷ ip) port c'),
        rw
            (
              host_of-slash (name ++ (slash ∷ ip)) (length name) (find_first slash name ip s),
              drop-length-append name (slash ∷ ip),
              ensure_port-none (slash ∷ ip) default_port (find_absent colon (slash ∷ ip) c'),
            )
            (split_at-colon (slash ∷ ip) (to_string default_port) c'),
      )
