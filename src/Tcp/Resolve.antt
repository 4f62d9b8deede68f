-- ===== src/Tcp/Resolve.antt =====
-- `_resolve_host` of src/meshtastic/meshtastic_tcp.cpp, and what `connect` opens.
use bitchat_meshtastic.Prelude.{
  ℕ, ◌-◌, ◌≡◌, refl, ap, arith, leb, ◌==◌, ◌||◌, not, if◌then◌else◌, Bool, true, false, ◌&&◌,
  Option, none, some, List, [], ◌∷◌, ◌++◌, length, take, drop, codes, length-append, take-append,
  drop-append,
}

abbrev suffix : List ℕ
suffix = codes ".local"

unfoldable pub is_same : List ℕ → List ℕ → Bool
is_same [] [] = true
is_same [] (b ∷ bs) = false
is_same (a ∷ as') [] = false
is_same (a ∷ as') (b ∷ bs) = (a == b) && is_same as' bs

-- The name without ".local", cut to 63 bytes; `none` for a host that does not end so, or that has nothing before it.
unfoldable pub mdns_name : List ℕ → Option (List ℕ)
unfolding is_same
mdns_name host =
    let front = length host - length suffix in
    if leb (length host) (length suffix) || not (is_same (drop front host) suffix)
    then none
    else some (take 63 (take front host))

-- `query` is `MDNS.queryHost`; 0 is the address 0.0.0.0.
unfoldable pub resolve_host : (List ℕ → ℕ) → List ℕ → Option ℕ
unfolding mdns_name
resolve_host query host = elim (mdns_name host) [
  | none ↦ none
  | some name ↦ let ip = query name in if ip == 0 then none else some ip
]

-- What the client is told to connect to.
pub data Target : Type 0 where
  address : ℕ → Target
  host_name : List ℕ → Target

unfoldable pub target : (List ℕ → ℕ) → List ℕ → Target
unfolding resolve_host
target query host = elim (resolve_host query host) [ some ip ↦ address ip | none ↦ host_name host ]

-- A name that ends in ".local" is asked for without its ending.
pub mdns_name-local :
    (b : ℕ) (name : List ℕ) → mdns_name ((b ∷ name) ++ codes ".local") ≡ some (take 63 (b ∷ name))
unfolding mdns_name is_same
mdns_name-local b name =
    let host = (b ∷ name) ++ codes ".local" in
    let n : length host - 6 ≡ length (b ∷ name) =
      omega (arith, length-append (b ∷ name) (codes ".local")) in
    let long : leb (length host) 6 ≡ false =
      ground (arith, length-append (b ∷ name) (codes ".local")) in
    rw (n, long, drop-append (b ∷ name) (codes ".local") (length (b ∷ name)) refl)
      (ap (λ front. some (take 63 front))
        (take-append (b ∷ name) (codes ".local") (length (b ∷ name)) refl))
