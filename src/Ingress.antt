-- ===== src/Ingress.antt =====
-- pkg/ingressutil/ingressutil.go. A string is its bytes here.
pub mod Urls
pub mod Hosts
use dockyards_flux.Base.{
  ℕ, String, Bool, true, false, List, [], ◌∷◌, ◌++◌, ◌+◌, ◌/◌, ◌%◌, if◌then◌else◌, is_empty, not,
  ◌||◌, ◌&&◌, eqb, leb,
}
use dockyards_flux.Api.Objects.{Bytes}

pub record LoadBalancerIngress : Type 0 where
  pub ip : String
  pub hostname : String

pub record IngressTls : Type 0 where
  pub hosts : List Bytes

pub record IngressRule : Type 0 where
  pub host : Bytes

-- The fields of an Ingress that are read: `Status.LoadBalancer.Ingress`, `Spec.TLS` and `Spec.Rules`.
pub record Ingress : Type 0 where
  pub load_balancer_ingress : List LoadBalancerIngress
  pub tls : List IngressTls
  pub rules : List IngressRule

abbrev contains : ℕ → Bytes → Bool
contains c [] = false
contains c (b ∷ bs) = eqb c b || contains c bs

-- -_.~ and !$&'()*+,;=:[]<>"
abbrev host_bytes : Bytes
host_bytes =
    45 ∷ 95 ∷ 46 ∷ 126 ∷ 33 ∷ 36 ∷ 38 ∷ 39 ∷ 40 ∷ 41 ∷ 42 ∷ 43 ∷ 44 ∷ 59 ∷ 61 ∷ 58 ∷ 91 ∷ 93 ∷ 60
    ∷ 62 ∷ 34 ∷ []

-- net/url keeps the letters, the digits and these bytes of a host.
abbrev pub is_kept : ℕ → Bool
is_kept c =
    (leb 97 c && leb c 122)
    || (leb 65 c && leb c 90)
    || (leb 48 c && leb c 57)
    || contains c host_bytes

abbrev pub upper_hex : ℕ → ℕ
upper_hex d = if leb d 9 then 48 + d else 55 + d

-- It writes any other as `%` and two digits.
abbrev pub escape_byte : ℕ → Bytes
escape_byte c = if is_kept c then c ∷ [] else 37 ∷ upper_hex (c / 16) ∷ upper_hex (c % 16) ∷ []

abbrev pub escape_host : Bytes → Bytes
escape_host [] = []
escape_host (c ∷ host) = escape_byte c ++ escape_host host

-- `(&url.URL{Scheme: scheme, Host: host}).String()` for a scheme that is not empty: without a host
-- there are no slashes.
abbrev pub url_string : Bytes → Bytes → Bytes
url_string scheme [] = scheme ++ 58 ∷ []
url_string scheme (c ∷ host) = scheme ++ 58 ∷ 47 ∷ 47 ∷ escape_host (c ∷ host)

abbrev pub http : Bytes
http = 104 ∷ 116 ∷ 116 ∷ 112 ∷ []

abbrev pub https : Bytes
https = 104 ∷ 116 ∷ 116 ∷ 112 ∷ 115 ∷ []

unfoldable pub append_hosts : List Bytes → List Bytes → List Bytes
append_hosts urls [] = urls
append_hosts urls (host ∷ hosts) = append_hosts (urls ++ url_string https host ∷ []) hosts

unfoldable pub append_tls : List Bytes → List IngressTls → List Bytes
append_tls urls [] = urls
append_tls urls (tls ∷ rest) = append_tls (append_hosts urls tls.hosts) rest

unfoldable pub append_rules : List Bytes → List IngressRule → List Bytes
append_rules urls [] = urls
append_rules urls (rule ∷ rules) = append_rules (urls ++ url_string http rule.host ∷ []) rules

unfoldable pub get_urls_from_ingress : Ingress → List Bytes
get_urls_from_ingress ingress =
    if is_empty ingress.load_balancer_ingress
    then []
    else (let urls = append_tls [] ingress.tls in
        if not (is_empty urls) then urls else append_rules urls ingress.rules)
