-- ===== src/Engineering/Egress.antt =====
-- services/engineering-agent/internal/egress/egress.go: which hosts a sandbox may reach. A host in
-- lower case is its code points; `wide` is the lower case of those above ASCII, and `is_ip` says
-- whether `net.ParseIP` reads a host.
pub mod Denied
use sl_open_bark.Common.{
  ℕ, String, Bool, false, not, ◌||◌, List, [], ◌∷◌, if◌then◌else◌, Option, none, some,
}
use sl_open_bark.Common.Text.{trim_space}
use sl_open_bark.Gateway.Redact.{codes, same_codes, to_lower}
use sl_open_bark.Engineering.{allowed_hosts}

-- `strings.HasSuffix`
abbrev pub has_suffix : List ℕ → List ℕ → Bool
has_suffix [] suffix = same_codes [] suffix
has_suffix (c ∷ cs) suffix = same_codes (c ∷ cs) suffix || has_suffix cs suffix

abbrev pub metadata_names : List String
metadata_names =
    "metadata.google.internal" ∷ "metadata" ∷ "instance-data" ∷ "instance-data.ec2.internal" ∷ []

abbrev is_one_of : List ℕ → List String → Bool
is_one_of host [] = false
is_one_of host (n ∷ ns) = same_codes host (codes n) || is_one_of host ns

unfoldable pub blocked_name : List ℕ → Bool
blocked_name host =
    is_one_of host metadata_names
    || has_suffix host (codes ".internal")
    || has_suffix host (codes ".local")

-- A host, or a subdomain of it.
abbrev pub under : List ℕ → String → Bool
under host a = same_codes host (codes a) || has_suffix host (b'.' ∷ codes a)

abbrev pub under_any : List ℕ → List String → Bool
under_any host [] = false
under_any host (a ∷ as') = under host a || under_any host as'

module _ (wide : ℕ → ℕ) (is_ip : List ℕ → Bool) where
  abbrev allowed_host : List ℕ → Bool
  allowed_host host =
      if same_codes host []
      then false
      else if is_ip host
      then false
      else if blocked_name host
      then false
      else under_any host allowed_hosts

  unfoldable pub allowed : String → Bool
  unfolding trim_space to_lower blocked_name
  allowed host = allowed_host (to_lower wide (trim_space host))

-- What package net says of an address.
pub record Ip : Type 0 where
  pub loopback : Bool
  pub private : Bool
  pub link_local_unicast : Bool
  pub link_local_multicast : Bool
  pub unspecified : Bool
  pub metadata_v4 : Bool
  pub metadata_v6 : Bool

unfoldable pub allowed_ip : Option Ip → Bool
allowed_ip none = false
allowed_ip (some ip) =
    if ip.loopback || ip.private || ip.link_local_unicast || ip.link_local_multicast
      || ip.unspecified
    then false
    else not (ip.metadata_v4 || ip.metadata_v6)
