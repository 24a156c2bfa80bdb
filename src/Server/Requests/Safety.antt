-- ===== src/Server/Requests/Safety.antt =====
-- Invariants of the server over every history of requests.
use subfile_data_service.Prelude.{
  Bytes, codes, bytes_eq, starts_with, List, [], ◌∷◌, some, Bool, if◌then◌else◌, ◌≡◌, refl, All, ap,
  ◌≢◌,
}
use mathlib.Core.Path.{subst}
use subfile_data_service.Rust.Result.{Result, ok, Io, expect, >>=-eq-ok, ok-injective}
use subfile_data_service.Serde.{Serde}
use subfile_data_service.HashMap.{HashMap, insert}
use subfile_data_service.Http.{Request, Response, authorization}
use subfile_data_service.Ipfs.{IpfsClient}
use subfile_data_service.Ipfs.Fetch.{read_subfile}
use subfile_data_service.Subfile.Types.{Subfile}
use subfile_data_service.Subfile.ChunkFiles.{validate_local_subfile}
use subfile_data_service.Subfile.Entries.{validate_subfile_entries}
use subfile_data_service.Subfile.Entries.Valid.{IsServableEntry, validate_subfile_entries-valid}
use subfile_data_service.Server.State.{Host, PackageVersion, ServerState}
use subfile_data_service.Server.Invariant.{
  AllServed, AllServed-insert, AllServed-remove, AllServed-nil, IsServable, read_subfile-fields,
}
use subfile_data_service.Server.Routes.{subfiles_route, header_text}
use subfile_data_service.Server.Admin.{handle_admin_request}
use subfile_data_service.Server.Admin.Guarded.{handle_admin_request-unauthorized}
use subfile_data_service.Server.Admin.Effects.{Keeps, handle_admin_request-keeps, if_keeps}
use subfile_data_service.Server.Requests.{
  ServerArgs, ignore, load_subfiles, initialize_subfile_server_context, handle_request,
}

module _ (serde : Serde) (host : Host) where
  -- The state after a history of requests, each answered under the lock.
  unfoldable pub serve : List Request → ServerState serde → ServerState serde
  serve [] s = s
  serve (req ∷ reqs) s = serve reqs (handle_request serde host req s).1

  module _ (Q : ServerState serde → Type 0) (keeps : Keeps serde host Q) where
    handle_request-keeps :
        (req : Request) (s : ServerState serde) → Q s → Q (handle_request serde host req s).1
    unfolding handle_request
    handle_request-keeps req s q = skip (bytes_eq req.path (codes "/")) _ _ q (
        skip (bytes_eq req.path (codes "/operator")) _ _ q (
          skip (bytes_eq req.path (codes "/status")) _ _ q (
            skip (bytes_eq req.path (codes "/health")) _ _ q (
              skip (bytes_eq req.path (codes "/version")) _ _ q (
                skip (bytes_eq req.path (codes "/cost")) _ _ q (
                  skip (bytes_eq req.path (codes "/admin")) _ _
                    (handle_admin_request-keeps serde host Q keeps req s q)
                    (skip (starts_with subfiles_route req.path) _ _ q q)))))))
      where
        skip :
            (b : Bool) (x y : Result Response × ServerState serde)
            → Q x.1
            → Q y.1
            → Q (if b then x else y).1
        skip = if_keeps serde host Q

    serve-keeps : (reqs : List Request) (s : ServerState serde) → Q s → Q (serve reqs s)
    unfolding serve
    serve-keeps [] s q = q
    serve-keeps (req ∷ reqs) s q = serve-keeps reqs _ (handle_request-keeps req s q)

  -- Every subfile of the state is servable.
  abbrev pub IsConsistent : ServerState serde → Type 0
  IsConsistent s = AllServed (IsServable host.fs) s.subfiles

  entry-IsServable :
      (client : IpfsClient) (hash path : Bytes) (subfile : Subfile)
      → IsServableEntry host.fs (hash, path)
      → read_subfile serde client hash path ≡ ok subfile
      → IsServable host.fs subfile.ipfs_hash subfile
  entry-IsServable client hash path subfile valid read =
      let (keyed, there) = read_subfile-fields serde client hash path subfile read in
      record { keyed = refl; valid = rw keyed valid.0; there = rw there valid.1 }

  IsConsistent-keeps : Keeps serde host IsConsistent
  IsConsistent-keeps = record {
    added = λ s hash path subfile valid read passed q.
        AllServed-insert (IsServable host.fs) subfile.ipfs_hash subfile s.subfiles
          (entry-IsServable s.client hash path subfile valid read) q;
    removed = λ s hash q. AllServed-remove (IsServable host.fs) hash s.subfiles q;
    priced = λ s price q. q;
  }

  load_subfiles-AllServed :
      (client : IpfsClient) (entries : List (Bytes × Bytes)) (subfiles loaded : HashMap Subfile)
      → All (IsServableEntry host.fs) entries
      → AllServed (IsServable host.fs) subfiles
      → load_subfiles serde host client entries subfiles ≡ ok loaded
      → AllServed (IsServable host.fs) loaded
  unfolding load_subfiles
  load_subfiles-AllServed client [] subfiles loaded valid all e =
      subst (λ m. AllServed (IsServable host.fs) m) (ok-injective e) all
  load_subfiles-AllServed client ((hash, path) ∷ entries) subfiles loaded valid all e =
      let (subfile, read, more) = >>=-eq-ok (read_subfile serde client hash path) _ e in
      let (u, dropped, rest) =
        >>=-eq-ok
          (ignore serde host (validate_local_subfile host.build host.fs host.digest subfile)) _
          more in
      load_subfiles-AllServed client entries (insert subfile.ipfs_hash subfile subfiles) loaded
        valid.1
        (AllServed-insert (IsServable host.fs) subfile.ipfs_hash subfile subfiles
          (entry-IsServable client hash path subfile valid.0 read) all)
        rest

  initialize-IsConsistent :
      (public_key : Bytes → Io Bytes) (release : PackageVersion) (client : IpfsClient)
      (config : ServerArgs serde) (s : ServerState serde)
      → initialize_subfile_server_context serde host public_key release client config ≡ ok s
      → IsConsistent s
  unfolding initialize_subfile_server_context
  initialize-IsConsistent public_key release client config s e =
      let (entries, first, more) =
        >>=-eq-ok (validate_subfile_entries host.fs config.subfiles) _ e in
      let (key, second, more') = >>=-eq-ok (expect (public_key config.mnemonic)) _ more in
      let (loaded, third, same) = >>=-eq-ok (load_subfiles serde host client entries []) _ more' in
      subst IsConsistent (ok-injective same) (
        load_subfiles-AllServed client entries [] loaded
          (validate_subfile_entries-valid host.fs config.subfiles entries first)
          (AllServed-nil (IsServable host.fs)) third)

  -- From the start-up on, after any requests, every subfile that the server lists stands under
  -- its own hash, which is a valid IPFS hash, and has a local path that exists.
  pub serve-IsConsistent :
      (public_key : Bytes → Io Bytes) (release : PackageVersion) (client : IpfsClient)
      (config : ServerArgs serde) (s : ServerState serde)
      → initialize_subfile_server_context serde host public_key release client config ≡ ok s
      → (reqs : List Request) → IsConsistent (serve reqs s)
  serve-IsConsistent public_key release client config s e reqs =
      serve-keeps IsConsistent IsConsistent-keeps reqs s
        (initialize-IsConsistent public_key release client config s e)

  -- The subfile passes the validation of its local files.
  abbrev pub IsVerified : Bytes → Subfile → Type 0
  IsVerified hash subfile = validate_local_subfile host.build host.fs host.digest subfile ≡ ok tt

  -- If every subfile of the server's state passes the validation of its local files, so does
  -- every one after any requests: the admin endpoint adds no subfile that fails it.
  pub serve-IsVerified :
      (s : ServerState serde) (reqs : List Request)
      → AllServed IsVerified s.subfiles
      → AllServed IsVerified (serve reqs s).subfiles
  serve-IsVerified s reqs all =
      serve-keeps (λ t. AllServed IsVerified t.subfiles)
        (record {
          added = λ t hash path subfile valid read passed q.
              AllServed-insert IsVerified subfile.ipfs_hash subfile t.subfiles passed q;
          removed = λ t hash q. AllServed-remove IsVerified hash t.subfiles q;
          priced = λ t price q. q;
        })
        reqs s all

  -- The tokens, the operator's key and the release that a state has.
  pub record SameSettings (s t : ServerState serde) : Type 0 where
    pub admin : t.admin_auth_token ≡ s.admin_auth_token
    pub free : t.free_query_auth_token ≡ s.free_query_auth_token
    pub operator : t.operator_public_key ≡ s.operator_public_key
    pub release : t.release ≡ s.release

  -- No request changes the tokens, the operator's key or the release of the server.
  pub serve-SameSettings :
      (s : ServerState serde) (reqs : List Request) → SameSettings s (serve reqs s)
  serve-SameSettings s reqs =
      serve-keeps (SameSettings s)
        (record {
          added = λ t hash path subfile valid read passed q. record {
            admin = q.admin;
            free = q.free;
            operator = q.operator;
            release = q.release;
          };
          removed = λ t hash q. record {
            admin = q.admin;
            free = q.free;
            operator = q.operator;
            release = q.release;
          };
          priced = λ t price q. record {
            admin = q.admin;
            free = q.free;
            operator = q.operator;
            release = q.release;
          };
        })
        reqs s (record { admin = refl; free = refl; operator = refl; release = refl })

  handle_request-unauthorized :
      (token : Bytes) (req : Request) (s : ServerState serde)
      → s.admin_auth_token ≡ some token
      → header_text (req.header authorization) ≢ some token
      → (handle_request serde host req s).1 ≡ s
  unfolding handle_request
  handle_request-unauthorized token req s e h =
      let refused : (handle_admin_request serde host req s).1 ≡ s =
        ap (λ (p : Result Response × ServerState serde). p.1)
          (handle_admin_request-unauthorized serde host req s token e h) in
      skip (bytes_eq req.path (codes "/")) _ _ refl (
        skip (bytes_eq req.path (codes "/operator")) _ _ refl (
          skip (bytes_eq req.path (codes "/status")) _ _ refl (
            skip (bytes_eq req.path (codes "/health")) _ _ refl (
              skip (bytes_eq req.path (codes "/version")) _ _ refl (
                skip (bytes_eq req.path (codes "/cost")) _ _ refl (
                  skip (bytes_eq req.path (codes "/admin")) _ _ refused
                    (skip (starts_with subfiles_route req.path) _ _ refl refl)))))))
    where
      skip :
          (b : Bool) (x y : Result Response × ServerState serde)
          → x.1 ≡ s
          → y.1 ≡ s
          → (if b then x else y).1 ≡ s
      skip = if_keeps serde host (λ t. t ≡ s)

  -- With an admin token set, requests of which none carries it leave the server's state as it
  -- is.
  pub serve-unauthorized :
      (token : Bytes) (s : ServerState serde)
      → s.admin_auth_token ≡ some token
      → (reqs : List Request)
      → All (λ req. header_text (req.header authorization) ≢ some token) reqs
      → serve reqs s ≡ s
  unfolding serve
  serve-unauthorized token s e [] none_carry = refl
  serve-unauthorized token s e (req ∷ reqs) none_carry =
      rw (handle_request-unauthorized token req s e none_carry.0)
        (serve-unauthorized token s e reqs none_carry.1)
