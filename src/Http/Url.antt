-- ===== src/Http/Url.antt =====
-- parse_url of src/ph_http.c.
use posthog_c.Base.{
  Bool-cases, Option-cases, inl, inr, ℕ, ◌<◌, ◌≡◌, refl, Bool, true, false, ◌||◌, Option, none,
  some, [], ◌∷◌, ◌++◌, leb, ◌==◌, if◌then◌else◌, length, Bytes, All, codes, arith,
}

abbrev pub host_cap : ℕ
host_cap = 256

abbrev pub port_cap : ℕ
port_cap = 8

pub record Url : Type 0 where
  pub host : Bytes
  pub port : Bytes
  pub path : Bytes
  pub is_https : Bool

-- strncmp with a prefix: what follows it.
abbrev pub behind : Bytes → Bytes → Option Bytes
behind [] p = some p
behind (w ∷ ws) [] = none
behind (w ∷ ws) (c ∷ p) = let rest = behind ws p in if c == w then rest else none

abbrev pub ends_host : ℕ → Bool
ends_host c = c == b'/' || c == b':'

abbrev pub ends_port : ℕ → Bool
ends_port c = c == b'/'

-- The bytes up to the first that ends the part, and those from there on.
unfoldable pub part : (ℕ → Bool) → Bytes → Bytes × Bytes
part ends [] = ([], [])
part ends (c ∷ p) =
    let (front, rest) = part ends p in if ends c then ([], c ∷ p) else (c ∷ front, rest)

-- The path, where there is one; "/" otherwise.
unfoldable pub url_path : Bytes → Bytes → Bytes → Bool → Option Url
url_path host port [] https =
    some (record { host = host; port = port; path = codes "/"; is_https = https })
url_path host port (c ∷ p) https =
    if c == b'/'
    then if leb host_cap (length (c ∷ p))
      then none
      else some (record { host = host; port = port; path = c ∷ p; is_https = https })
    else some (record { host = host; port = port; path = codes "/"; is_https = https })

unfoldable pub url_port : Bytes → Bytes → Bytes → Bool → Option Url
url_port host default [] https = url_path host default [] https
url_port host default (c ∷ p) https =
    let (port, rest) = part ends_port p in
    if c == b':'
    then if leb port_cap (length port) then none else url_path host port rest https
    else url_path host default (c ∷ p) https

unfoldable pub url_host : Bytes → Bytes → Bool → Option Url
url_host default p https =
    let (host, rest) = part ends_host p in
    if length host == 0 || leb host_cap (length host)
    then none
    else url_port host default rest https

-- `none` is the return value PH_ERR.
unfoldable pub parse_url : Bytes → Option Url
parse_url url = elim (behind (codes "http://") url) [
  | some p ↦ url_host (codes "80") p false
  | none ↦ elim (behind (codes "https://") url) [
    | some p ↦ url_host (codes "443") p true
    | none ↦ none
  ]
]

-- A part that holds none of its ends.
abbrev pub Without : (ℕ → Bool) → Bytes → Type 0
Without ends p = All (λ c. ends c ≡ false) p

part-append :
    (ends : ℕ → Bool) (front : Bytes) (c : ℕ) (rest : Bytes)
    → Without ends front
    → ends c ≡ true
    → part ends (front ++ (c ∷ rest)) ≡ (front, c ∷ rest)
unfolding part
part-append ends [] c rest h e = rw e refl
part-append ends (x ∷ front) c rest (h, hs) e =
    rw (part-append ends front c rest hs e, part, h) refl

url_host-path :
    (default host path : Bytes) (https : Bool)
    → Without ends_host host
    → 0 < length host
    → length host < host_cap
    → length (b'/' ∷ path) < host_cap
    → url_host default (host ++ (b'/' ∷ path)) https
      ≡ some (record { host = host; port = default; path = b'/' ∷ path; is_https = https })
unfolding url_host url_port url_path
url_host-path default host path https h pos short fits =
    rw (part-append ends_host host b'/' path h refl) (ground arith)

url_host-port :
    (default host port path : Bytes) (https : Bool)
    → Without ends_host host
    → 0 < length host
    → length host < host_cap
    → Without ends_port port
    → length port < port_cap
    → length (b'/' ∷ path) < host_cap
    → url_host default (host ++ (b':' ∷ (port ++ (b'/' ∷ path)))) https
      ≡ some (record { host = host; port = port; path = b'/' ∷ path; is_https = https })
unfolding url_host url_port url_path
url_host-port default host port path https h pos short hp sp fits =
    rw
      (
        part-append ends_host host b':' (port ++ (b'/' ∷ path)) h refl,
        part-append ends_port port b'/' path hp refl,
      )
      (ground arith)

-- An address of either scheme whose parts fit the arrays is taken apart into those parts; without a
-- port the default of the scheme stands in.
pub parse_url_lem :
    (host port path : Bytes)
    → Without ends_host host
    → 0 < length host
    → length host < host_cap
    → Without ends_port port
    → length port < port_cap
    → length (b'/' ∷ path) < host_cap
    → (parse_url (codes "http://" ++ (host ++ (b'/' ∷ path)))
        ≡ some (record { host = host; port = codes "80"; path = b'/' ∷ path; is_https = false }))
      × (parse_url (codes "https://" ++ (host ++ (b'/' ∷ path)))
          ≡ some (record { host = host; port = codes "443"; path = b'/' ∷ path; is_https = true }))
      × (parse_url (codes "http://" ++ (host ++ (b':' ∷ (port ++ (b'/' ∷ path)))))
          ≡ some (record { host = host; port = port; path = b'/' ∷ path; is_https = false }))
      × (parse_url (codes "https://" ++ (host ++ (b':' ∷ (port ++ (b'/' ∷ path)))))
          ≡ some (record { host = host; port = port; path = b'/' ∷ path; is_https = true }))
unfolding parse_url
parse_url_lem host port path h pos short hp sp fits = (
  url_host-path (codes "80") host path false h pos short fits,
  url_host-path (codes "443") host path true h pos short fits,
  url_host-port (codes "80") host port path false h pos short hp sp fits,
  url_host-port (codes "443") host port path true h pos short hp sp fits,
)

-- Every part fits its array with a NUL, and the host is not empty.
abbrev pub UrlFits : Option Url → Type 0
UrlFits none = Unit
UrlFits (some u) =
    (0 < length u.host)
    × (length u.host < host_cap)
    × (length u.port < port_cap)
    × (length u.path < host_cap)

url_path-UrlFits :
    (host port p : Bytes) (https : Bool)
    → (0 < length host) × (length host < host_cap) × (length port < port_cap)
    → UrlFits (url_path host port p https)
unfolding url_path
url_path-UrlFits host port [] https (a, b, c) = (a, b, c, omega arith)
url_path-UrlFits host port (x ∷ p) https (a, b, c) = elim (Bool-cases (x == b'/')) [
  | inl e ↦ elim (Bool-cases (leb host_cap (length (x ∷ p)))) [
    | inl f ↦ rw (e, f) tt
    | inr f ↦ rw (e, f) (a, b, c, ground arith)
  ]
  | inr e ↦ rw e (a, b, c, omega arith)
]

url_port-UrlFits :
    (host default p : Bytes) (https : Bool)
    → (0 < length host) × (length host < host_cap) × (length default < port_cap)
    → UrlFits (url_port host default p https)
unfolding url_port
url_port-UrlFits host default [] https h = url_path-UrlFits host default [] https h
url_port-UrlFits host default (x ∷ p) https (a, b, c) = elim (Bool-cases (x == b':')) [
  | inl e ↦ elim (Bool-cases (leb port_cap (length (part ends_port p).0))) [
    | inl f ↦ rw (e, f) tt
    | inr f ↦ rw (e, f) (url_path-UrlFits host _ _ https (a, b, ground arith))
  ]
  | inr e ↦ rw e (url_path-UrlFits host default (x ∷ p) https (a, b, c))
]

url_host-UrlFits :
    (default p : Bytes) (https : Bool)
    → length default < port_cap
    → UrlFits (url_host default p https)
unfolding url_host
url_host-UrlFits default p https h =
    let host = (part ends_host p).0 in
    elim (Bool-cases (length host == 0 || leb host_cap (length host))) [
      | inl e ↦ rw e tt
      | inr e ↦ rw e (url_port-UrlFits host default _ https (ground arith, ground arith, h))
    ]

-- Whatever the address, what parse_url stores fits its arrays, and the host is not empty.
pub parse_url-UrlFits : (url : Bytes) → UrlFits (parse_url url)
unfolding parse_url
parse_url-UrlFits url = elim (Option-cases (behind (codes "http://") url)) [
  | inr (p, e) ↦ rw (e, parse_url) (url_host-UrlFits (codes "80") p false (omega arith))
  | inl e ↦ elim (Option-cases (behind (codes "https://") url)) [
    | inr (p, f) ↦ rw (e, parse_url, f) (url_host-UrlFits (codes "443") p true (omega arith))
    | inl f ↦ rw (e, parse_url, f) tt
  ]
]
