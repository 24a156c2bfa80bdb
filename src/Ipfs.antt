-- ===== src/Ipfs.antt =====
-- subfile-exchange/src/subfile/ipfs.rs. The HTTP client is a crate, so `send` is a parameter.
pub mod Fetch
use subfile_data_service.Prelude.{
  ℕ, Bytes, codes, ◌++◌, Bool, true, false, ◌&&◌, ◌||◌, ◌==◌, Option, none, some, length,
  starts_with, if◌then◌else◌,
}
use subfile_data_service.Rust.Result.{Io, done, failed, Result, ok, panic}

unfoldable pub is_valid_ipfs_hash : Bytes → Bool
unfolding starts_with
is_valid_ipfs_hash hash = starts_with (codes "Qm") hash && length hash == 46

pub record AddResponse : Type 0 where
  pub name : Bytes
  pub hash : Bytes
  pub size : Bytes

-- A `reqwest` POST request: a multipart form with one part, or an explicit content length of 0.
pub record PostRequest : Type 0 where
  pub url : Bytes
  pub form : Option Bytes
  pub content_length_zero : Bool
  pub timeout : Option ℕ

-- A `reqwest::Response`: `error_for_status`, `bytes` and `json` for an `AddResponse`.
pub record PostResponse : Type 0 where
  pub error_for_status : Io (Unit {0})
  pub bytes : Io Bytes
  pub json : Io AddResponse

-- `Uri::from_str`, shown again as a text, and `reqwest`'s `send`.
pub record HttpClient : Type 0 where
  pub parse_uri : Bytes → Io Bytes
  pub send : PostRequest → Io PostResponse

pub record IpfsClient : Type 0 where
  pub base : Bytes
  pub client : HttpClient

infixl 5 ◌>>=◌
abbrev pub ◌>>=◌ : {A B : Type 0} → Io A → (A → Io B) → Io B
done a >>= f = f a
failed e >>= f = failed e

-- `IpfsClient::new`
unfoldable pub new : HttpClient → Bytes → Io IpfsClient
new http base = do uri ← http.parse_uri base; done (record { base = uri; client = http })

-- `IpfsClient::localhost`, whose `unwrap` panics
unfoldable pub localhost : HttpClient → Result IpfsClient
localhost http = elim (http.parse_uri (codes "http://localhost:5001")) [
  | done uri ↦ ok (record { base = uri; client = http })
  | failed e ↦ panic
]

url : IpfsClient → Bytes → Bytes → Bytes
url self route arg = self.base ++ codes "api/v0/" ++ route ++ codes "?arg=" ++ arg

post_request : Bytes → Option Bytes → Option ℕ → PostRequest
post_request url none timeout = record {
  url = url;
  form = none;
  content_length_zero = true;
  timeout = timeout;
}
post_request url (some form) timeout = record {
  url = url;
  form = some form;
  content_length_zero = false;
  timeout = timeout;
}

call : IpfsClient → Bytes → Option Bytes → Option ℕ → Io PostResponse
unfolding post_request
call self url form timeout = do
  res ← self.client.send (post_request url form timeout)
  accepted ← res.error_for_status
  done res

unfoldable pub cat_all : IpfsClient → Bytes → ℕ → Io Bytes
unfolding call url
cat_all self cid timeout = do
  res ← call self (url self (codes "cat") cid) none (some timeout)
  res.bytes

-- `IpfsClient::test`
unfoldable pub test : IpfsClient → Io (Unit {0})
unfolding call
test self = do res ← call self (self.base ++ codes "api/v0/version") none none; done tt

unfoldable pub add : IpfsClient → Bytes → Io AddResponse
unfolding call
add self bytes = do res ← call self (self.base ++ codes "api/v0/add") (some bytes) none; res.json

-- `create_ipfs_client`
unfoldable pub create_ipfs_client : HttpClient → Bytes → Result IpfsClient
unfolding new starts_with
create_ipfs_client http uri =
    let ipfs_address =
      if starts_with (codes "http://") uri || starts_with (codes "https://") uri
      then uri
      else codes "http://" ++ uri in
    elim (new http ipfs_address) [ done ipfs_client ↦ ok ipfs_client | failed e ↦ panic ]
