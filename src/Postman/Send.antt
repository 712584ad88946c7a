-- ===== src/Postman/Send.antt =====
-- What `tranferRequest` sends: one request for every slice that holds keys, to a server of the list.
use tgproxy.Common.{
  ℕ, ◌+◌, ◌^◌, ◌<◌, ◌≡◌, ◌≢◌, refl, sym, ap, ◌∙◌, false, List, [], ◌∷◌, ◌++◌, append_assoc,
  append-nil, Text, empty, done, All, subst,
}
use tgproxy.Json.{Rapidjson, Laws}
use tgproxy.Cluster.Admin.{Admin, get_one_ms_addr}
use tgproxy.Cluster.Rotation.{get_one_ms_addr-All}
use tgproxy.Postman.{Event, Postman, encode_slice}
use tgproxy.Postman.Transfer.{Shared, url_of, hostname_of, get_ms_url, transfer_loop}

-- There are servers, and every address names one.
pub record IsReady (s : Shared) : Type 0 where
  pub servers : s.admin.ms_cluster ≢ []
  pub named : All (λ t. t ≢ []) s.admin.ms_cluster

-- What is shared is ready again, with the same file.
abbrev pub IsKept : Shared → Shared → Type 0
IsKept s s' = IsReady s' × (s'.ms_conf ≡ s.ms_conf)

pub hostname_of_named :
    (host : Text) (a : Admin) (s : Shared) (i : ℕ)
    → host ≢ []
    → hostname_of (host, a) s i ≡ done (host, record s { admin = a })
unfolding hostname_of
hostname_of_named [] a s i h = absurd (h refl)
hostname_of_named (c ∷ host) a s i h = refl

-- Where the list has servers, the URL is made with one of them, and the file is not looked at.
get_ms_url-IsReady :
    (p : Postman) (s : Shared) (i : ℕ)
    → IsReady s
    → let r = get_one_ms_addr s.admin in
      (get_ms_url p s i ≡ done (url_of p r.0 i, record s { admin = r.1 }))
      × IsReady (record s { admin = r.1 })
unfolding get_ms_url
get_ms_url-IsReady p s i r =
    let one = get_one_ms_addr s.admin in
    let all = get_one_ms_addr-All (λ t. t ≢ []) s.admin r.servers r.named in
    (
      rw (hostname_of_named one.0 one.1 s i all.0),
      record {
        servers = λ e. r.servers (sym all.1 ∙ e);
        named = subst (All (λ t. t ≢ [])) (sym all.1) r.named;
      },
    )

empty-false : (t : Text) → t ≢ [] → empty t ≡ false
empty-false [] h = absurd (h refl)
empty-false (c ∷ t) h = refl

module _ (j : Rapidjson) (laws : Laws j) where
  encode_slice_there :
      (keys : List ℕ) → All (λ k. k < 2 ^ 64) keys → empty (encode_slice j keys) ≡ false
  unfolding encode_slice
  encode_slice_there keys a =
      let facts = laws.parse-write _ keys a in empty-false _ (λ e. facts.1 (sym facts.0 ∙ e))

  module _ (p : Postman) where
    -- One request for every slice that holds keys, from partition i on.
    pub data Sent : ℕ → List (List ℕ) → List Event → Type 0 where
      nothing : (i : ℕ) → Sent i [] []
      skipped :
          (i : ℕ) (slices : List (List ℕ)) (es : List Event)
          → Sent (i + 1) slices es
          → Sent i ([] ∷ slices) es
      posted :
          (i k : ℕ) (ks : List ℕ) (slices : List (List ℕ)) (es : List Event) (host : Text)
          → Sent (i + 1) slices es
          → Sent i ((k ∷ ks) ∷ slices) (
              record { url = url_of p host i; body = encode_slice j (k ∷ ks); timeout_ms = 2000 }
              ∷ es)

    transfer_loop-cons :
        (k : ℕ) (ks : List ℕ) (slices : List (List ℕ)) (i : ℕ) (hub : List Event) (out : Text)
        (s s' : Shared) (url : Text)
        → empty (encode_slice j (k ∷ ks)) ≡ false
        → get_ms_url p s i ≡ done (url, s')
        → transfer_loop j p i ((k ∷ ks) ∷ slices) hub out s
          ≡ transfer_loop j p
              (i + 1)
              slices
              (hub ++ record { url = url; body = encode_slice j (k ∷ ks); timeout_ms = 2000 } ∷ [])
              out
              s'
    unfolding transfer_loop
    transfer_loop-cons k ks slices i hub out s s' url e f = rw (e, f, transfer_loop)

    pub transfer_loop-Sent :
        (slices : List (List ℕ)) (i : ℕ) (hub : List Event) (out : Text) (s : Shared)
        → All (All (λ k. k < 2 ^ 64)) slices
        → IsReady s
        → (es : List Event) × (s' : Shared) × (transfer_loop j p i slices hub out s
            ≡ done (hub ++ es, out, s'))
          × Sent i slices es
          × IsKept s s'
    unfolding transfer_loop
    transfer_loop-Sent [] i hub out s a r = ([], s, rw append-nil, nothing i, (r, refl))
    transfer_loop-Sent ([] ∷ slices) i hub out s a r =
        let (es, s', e, sent, r') = transfer_loop-Sent slices (i + 1) hub out s a.1 r in
        (es, s', e, skipped i slices es sent, r')
    transfer_loop-Sent ((k ∷ ks) ∷ slices) i hub out s a r =
        let (u, r1) = get_ms_url-IsReady p s i r in
        let one = get_one_ms_addr s.admin in
        let event : Event = record {
          url = url_of p one.0 i;
          body = encode_slice j (k ∷ ks);
          timeout_ms = 2000;
        } in
        let (es, s', e, sent, r') =
          transfer_loop-Sent slices (i + 1) (hub ++ event ∷ []) out (record s { admin = one.1 }) a.1
            r1 in
        (
          event ∷ es,
          s',
          transfer_loop-cons k ks slices i hub out s _ _ (encode_slice_there (k ∷ ks) a.0) u
              ∙ (e ∙ ap (λ h. done (h, out, s')) (append_assoc hub (event ∷ []) es)),
          posted i k ks slices es one.0 sent,
          r',
        )
