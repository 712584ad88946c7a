-- ===== src/Postman/Fallback.antt =====
-- Where the cluster has no server, the URL comes from the file.
use tgproxy.Common.{
  ℕ, ◌+◌, ◌%◌, ◌^◌, ◌<◌, ◌≡◌, ◌≢◌, refl, sym, ap, ◌∙◌, List, [], ◌∷◌, Text, some, length, get_elem?,
  get_or, lt→ltb, done, All,
}
use mathlib.Core.List.{cons-ne-nil}
use tgproxy.MsConf.{MsConfFile, at_key, get_ms_list}
use tgproxy.MsConf.Loaded.{HasServers, at_key-Served, get_ms_list-there}
use tgproxy.Cluster.Rotation.{get_one_ms_addr-All}
use tgproxy.Cluster.Admin.{Admin, get_one_ms_addr, served}
use tgproxy.Postman.{Postman}
use tgproxy.Postman.Send.{hostname_of_named}
use tgproxy.Postman.Transfer.{Shared, url_of, pick, fallback_host, hostname_of, get_ms_url}

pick-there :
    (row : List Text) (count : ℕ)
    → row ≢ []
    → pick row count ≡ done (get_or row (count % length row) [])
unfolding pick
pick-there [] count h = absurd (h refl)
pick-there (a ∷ row) count h = refl

one_none : (a : Admin) → a.ms_cluster ≡ [] → get_one_ms_addr a ≡ ([], a)
unfolding get_one_ms_addr served
one_none a e = rw e refl

-- Where a URL's host comes from: the cluster's list, or the partition's row of the file.
pub data Source (s : Shared) (i : ℕ) (host : Text) : Type 0 where
  from_cluster : s.admin.ms_cluster ≢ [] → host ≡ (get_one_ms_addr s.admin).0 → Source s i host
  from_file :
      (row : List Text)
      → s.admin.ms_cluster ≡ []
      → get_elem? (at_key s.ms_conf []).0.ms_lists i ≡ some row
      → row ≢ []
      → host ≡ get_or row ((s.url_count + 1) % length row) []
      → Source s i host

hostname_of-none :
    (a : Admin) (s : Shared) (i : ℕ) (row : List Text) (f : MsConfFile)
    → s.url_count + 1 < 2 ^ 31
    → get_ms_list s.ms_conf i [] ≡ done (row, f)
    → row ≢ []
    → hostname_of ([], a) s i
      ≡ done (
        get_or row ((s.url_count + 1) % length row) [],
        record { admin = a; ms_conf = f; url_count = s.url_count + 1 },
      )
unfolding hostname_of fallback_host
hostname_of-none a s i row f few e there =
    rw (lt→ltb (s.url_count + 1) (2 ^ 31) few, e, pick-there row (s.url_count + 1) there) refl

get_ms_url-host :
    (p : Postman) (s s' : Shared) (i : ℕ) (host : Text)
    → hostname_of (get_one_ms_addr s.admin) s i ≡ done (host, s')
    → get_ms_url p s i ≡ done (url_of p host i, s')
unfolding get_ms_url
get_ms_url-host p s s' i host e = rw e refl

get_ms_url-cases :
    (p : Postman) (s : Shared) (i : ℕ) (ms : List Text)
    → s.admin.ms_cluster ≡ ms
    → All (λ t. t ≢ []) s.admin.ms_cluster
    → HasServers s.ms_conf
    → i < length (at_key s.ms_conf []).0.ms_lists
    → s.url_count + 1 < 2 ^ 31
    → (host : Text) × (s' : Shared) × (get_ms_url p s i ≡ done (url_of p host i, s'))
      × Source s i host
      × (s'.admin.ms_cluster ≡ s.admin.ms_cluster)
      × HasServers s'.ms_conf
get_ms_url-cases p s i [] e named h lt few =
    let (row, there, keys) = get_ms_list-there s.ms_conf [] i h lt in
    let run = hostname_of-none s.admin s i row (at_key s.ms_conf []).1 few there.1 keys in
    let s' : Shared = record {
      admin = s.admin;
      ms_conf = (at_key s.ms_conf []).1;
      url_count = s.url_count + 1;
    } in
    (
      get_or row ((s.url_count + 1) % length row) [],
      s',
      get_ms_url-host p s s' i _ (ap (λ r. hostname_of r s i) (one_none s.admin e) ∙ run),
      from_file row e there.0 keys refl,
      refl,
      (at_key-Served s.ms_conf [] h).1,
    )
get_ms_url-cases p s i (m ∷ ms) e named h lt few =
    let there : s.admin.ms_cluster ≢ [] = λ g. cons-ne-nil m ms (sym e ∙ g) in
    let one = get_one_ms_addr s.admin in
    let all = get_one_ms_addr-All (λ t. t ≢ []) s.admin there named in
    let s' : Shared = record s { admin = one.1 } in
    (
      one.0,
      s',
      get_ms_url-host p s s' i one.0 (hostname_of_named one.0 one.1 s i all.0),
      from_cluster there refl,
      all.1,
      h,
    )

-- If the rows of the file are not empty, the file has the partition, no address of the cluster is
-- empty and the static count has not reached the top of its `int`, then `get_ms_url` returns the URL
-- of the partition at a host of the cluster's list, or, where that is empty, of the partition's row of
-- the file, and the rows of the file are still not empty.
pub get_ms_url-Source :
    (p : Postman) (s : Shared) (i : ℕ)
    → All (λ t. t ≢ []) s.admin.ms_cluster
    → HasServers s.ms_conf
    → i < length (at_key s.ms_conf []).0.ms_lists
    → s.url_count + 1 < 2 ^ 31
    → (host : Text) × (s' : Shared) × (get_ms_url p s i ≡ done (url_of p host i, s'))
      × Source s i host
      × (s'.admin.ms_cluster ≡ s.admin.ms_cluster)
      × HasServers s'.ms_conf
get_ms_url-Source p s i = get_ms_url-cases p s i s.admin.ms_cluster refl
