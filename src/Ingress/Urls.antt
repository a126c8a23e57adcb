-- ===== src/Ingress/Urls.antt =====
-- The URLs that pkg/ingressutil/ingressutil.go gives, against a description of them.
use dockyards_flux.Base.{
  List, [], ◌∷◌, ◌++◌, ◌≡◌, refl, arith, map, ap, sym, ◌∙◌, if◌then◌else◌, is_empty,
}
use mathlib.Core.List.{append-nil, append_assoc, map-append}
use dockyards_flux.Api.Objects.{Bytes}
use dockyards_flux.Ingress.{
  Ingress, IngressTls, IngressRule, url_string, http, https, append_hosts, append_tls, append_rules,
  get_urls_from_ingress,
}

-- All hosts of the TLS section, in order.
abbrev pub tls_hosts : List IngressTls → List Bytes
tls_hosts [] = []
tls_hosts (tls ∷ rest) = tls.hosts ++ tls_hosts rest

-- The URLs of an ingress with an address: `https` for the hosts of the TLS section or, if there are
-- none, `http` for those of the rules.
abbrev pub addressed_urls : Ingress → List Bytes
addressed_urls ingress =
    if is_empty (tls_hosts ingress.tls)
    then map (λ (r : IngressRule). url_string http r.host) ingress.rules
    else map (λ h. url_string https h) (tls_hosts ingress.tls)

-- Appending the image of one element, then those of the rest.
append_one :
    {A B : Type 0} (f : A → B) (urls : List B) (x : A) (xs : List A)
    → (urls ++ f x ∷ []) ++ map f xs ≡ urls ++ map f (x ∷ xs)
append_one f urls x xs = append_assoc urls (f x ∷ []) (map f xs)

append_hosts_lem :
    (urls hosts : List Bytes)
    → append_hosts urls hosts ≡ urls ++ map (λ h. url_string https h) hosts
unfolding append_hosts
append_hosts_lem urls [] = sym (append-nil urls)
append_hosts_lem urls (h ∷ hosts) =
    append_hosts_lem (urls ++ url_string https h ∷ []) hosts
    ∙ append_one (λ h. url_string https h) urls h hosts

append_rules_lem :
    (urls : List Bytes) (rules : List IngressRule)
    → append_rules urls rules ≡ urls ++ map (λ (r : IngressRule). url_string http r.host) rules
unfolding append_rules
append_rules_lem urls [] = sym (append-nil urls)
append_rules_lem urls (r ∷ rules) =
    append_rules_lem (urls ++ url_string http r.host ∷ []) rules
    ∙ append_one (λ (r : IngressRule). url_string http r.host) urls r rules

append_tls_lem :
    (urls : List Bytes) (sections : List IngressTls)
    → append_tls urls sections ≡ urls ++ map (λ h. url_string https h) (tls_hosts sections)
unfolding append_tls
append_tls_lem urls [] = sym (append-nil urls)
append_tls_lem urls (tls ∷ rest) =
    append_tls_lem (append_hosts urls tls.hosts) rest
    ∙ ap (λ us. us ++ map (λ h. url_string https h) (tls_hosts rest))
        (append_hosts_lem urls tls.hosts)
    ∙ append_assoc urls _ _
    ∙ ap (λ us. urls ++ us) (sym (map-append (λ h. url_string https h) tls.hosts (tls_hosts rest)))

is_empty-map : {A B : Type 0} (f : A → B) (xs : List A) → is_empty (map f xs) ≡ is_empty xs
is_empty-map f [] = refl
is_empty-map f (x ∷ xs) = refl

-- An ingress without an address has no URLs; one with an address has a URL with https for each host
-- of its TLS section, in order, or, where that names no host, one with http for each of its rules.
pub get_urls_from_ingress_lem :
    (ingress : Ingress)
    → get_urls_from_ingress ingress
      ≡ (if is_empty ingress.load_balancer_ingress then [] else addressed_urls ingress)
unfolding get_urls_from_ingress
get_urls_from_ingress_lem ingress = ground (
  arith,
  append_tls_lem [] ingress.tls,
  append_rules_lem [] ingress.rules,
  is_empty-map (λ h. url_string https h) (tls_hosts ingress.tls),
)
