-- ===== src/Servers/SafeUrl.antt =====
-- app/crud/server_crud.py: `_is_safe_url`. `urlparse` (none where it raises), `socket.gethostbyname` and
-- the loopback test of `ipaddress` are parameters.
use ollama_proxy_server.Prelude.{
  Bool, true, false, not, ◌||◌, Option, none, some, String, str_eq, lower, is_nil, if◌then◌else◌,
}

pub record UrlParts : Type 0 where
  pub scheme : String
  pub hostname : String

-- What `gethostbyname` does: it gives an IPv4 address, or raises a gaierror, as it also does for an IPv6
-- address, or raises something else, which the function answers with False.
pub data Resolution : Type 0 where
  resolved : String → Resolution
  gaierror : Resolution
  raises : Resolution

module _ (urlparse : String → Option UrlParts) (gethostbyname : String → Resolution)
    (is_loopback : String → Bool) where
  -- the address of the host, where it has one, is none of those that are blocked
  unfoldable pub is_safe_address : Resolution → Bool
  is_safe_address gaierror = true
  is_safe_address raises = false
  is_safe_address (resolved ip) =
      if is_loopback ip
      then false
      else if str_eq ip "169.254.169.254"
      then false
      else if str_eq ip "0.0.0.0"
      then false
      else true

  unfoldable pub is_safe_parts : Option UrlParts → Bool
  is_safe_parts none = false
  is_safe_parts (some parsed) =
      let safe_address = is_safe_address (gethostbyname parsed.hostname) in
      if not (str_eq parsed.scheme "http" || str_eq parsed.scheme "https")
      then false
      else if is_nil parsed.hostname
      then false
      else if str_eq (lower parsed.hostname) "localhost"
          || str_eq (lower parsed.hostname) "localhost.localdomain"
      then false
      else safe_address

  unfoldable pub is_safe_url : String → Bool
  is_safe_url url = is_safe_parts (urlparse url)
