-- ===== src/Postman.antt =====
-- postman/: one request on its way to the model servers and back. Logging is left out. The HTTP
-- client and its event loop are seen as what they deliver: `hub` lists the requests that were
-- registered, and `answer_request` is given the completions that `hub_->start()` delivers.
pub mod Transfer
pub mod Callback
pub mod Send
pub mod Answers
pub mod Matching
pub mod Delivery
pub mod Features
pub mod Requests
pub mod RoundTrip
pub mod Ignored
pub mod Unanswered
pub mod Fallback
pub mod Ready
pub mod Order
pub mod Wired
use tgproxy.Common.{
  ℕ, zero, suc, ◌+◌, ◌%◌, ◌^◌, ◌≡◌, refl, Bool, true, false, not, ◌&&◌, List, [], ◌∷◌, ◌++◌, map,
  Option, none, some, Text, codes, c_str, empty, same_text, length, get_elem?, set, replicate, ltb,
  leb, ◌==◌, if◌then◌else◌, Run, done, abort, assert, ◌>>=◌, ◌>>◌,
}
use tgproxy.Common.Int.{ℤ, pos, negsuc, to_u64}
use tgproxy.Common.Decimal.{to_string, stoi}
use tgproxy.Slicer.{KeyRange, new_slicer, slice}
use tgproxy.Json.{
  Rapidjson, View, find, int64_of, uint64_of, double_of, array_of, text_of, integers, one_member,
}
use tgproxy.MsConf.{MsConfFile, get_ms_list}
use tgproxy.Cluster.Admin.{Admin, get_one_ms_addr}

-- A request that was registered with the event hub.
pub record Event : Type 0 where
  pub url : Text
  pub body : Text
  pub timeout_ms : ℕ

pub record Postman : Type 0 where
  pub range : ℤ
  pub model_name : Text
  pub model_ver : Text
  pub slicer : List KeyRange
  pub weights : List Text
  pub hub : List Event
  pub features : List ℕ
  pub slices : List (List ℕ)

-- `weights_.resize(range)`; a negative count is an exception of `resize`.
unfoldable pub new_postman : ℤ → Text → Text → Run Postman
new_postman (negsuc n) name ver = abort
new_postman (pos n) name ver = done (record {
  range = pos n;
  model_name = name;
  model_ver = ver;
  slicer = new_slicer (pos n);
  weights = replicate n [];
  hub = [];
  features = [];
  slices = [];
})

-- What a method answers: true, or false with a text in `out`.
pub data Answer : Type 0 where
  ok : Answer
  refused : Text → Answer

module _ (j : Rapidjson) where
  open j use {Value, Double, parse, view, make, write}

  -- The loop over the features: what was pushed, and whether all were `uint64_t`.
  unfoldable pub feature_loop : List Value → List ℕ → List ℕ × Bool
  feature_loop [] features = (features, true)
  feature_loop (v ∷ vs) features = elim (uint64_of j (view v)) [
    | none ↦ (features, false)
    | some feature ↦ feature_loop vs (features ++ feature ∷ [])
  ]

  -- The local `count`: -1 unless the member is there and is an `int64_t`.
  abbrev pub count_member : Option Value → ℤ
  count_member none = negsuc 0
  count_member (some v) = elim (int64_of j (view v)) [ none ↦ negsuc 0 | some n ↦ n ]

  -- `count != -1 && count != features_.size()`: the comparison is one of `uint64_t`.
  abbrev pub wrong_count : ℤ → List ℕ → Bool
  wrong_count (negsuc zero) features = false
  wrong_count count features = not (to_u64 count == length features)

  -- `checkRequest` behind the loop.
  unfoldable pub checked : ℤ → Postman → List ℕ × Bool → Postman × Answer
  checked count p (features, false) =
      (record p { features = features }, refused (codes "please check, feature is not uint64"))
  checked count p ([], true) =
      (record p { features = [] }, refused (codes "please check, features is empty"))
  checked count p (k ∷ ks, true) = (
    record p { features = k ∷ ks },
    if wrong_count count (k ∷ ks)
        then refused (codes "please check, features size != count")
        else ok,
  )

  unfoldable pub check_features : ℤ → Postman → Option Value → Postman × Answer
  unfolding checked
  check_features count p none = (p, refused (codes "please check, features is gone"))
  check_features count p (some v) = elim (array_of j (view v)) [
    | none ↦ (p, refused (codes "please check, features is not array"))
    | some vs ↦ checked count p (feature_loop vs p.features)
  ]

  unfoldable pub check_document : Postman → Option Value → Run (Postman × Answer)
  unfolding check_features
  check_document p none = done (p, refused (codes "please check, wrong request json"))
  check_document p (some d) = do
    c ← find j d (codes "count")
    f ← find j d (codes "features")
    done (check_features (count_member c) p f)

  -- `checkRequest(words, out)`.
  unfoldable pub check_request : Postman → Text → Run (Postman × Answer)
  unfolding check_document
  check_request p words = check_document p (parse (c_str words))

  -- `encodeSlice(slice, json_slice)`.
  unfoldable pub encode_slice : List ℕ → Text
  encode_slice keys = c_str (write (one_member j (codes "features") (integers j keys)))

  -- `encodeRankingWeights(weights, json_weights)`.
  unfoldable pub encode_ranking_weights : List Double → Text
  encode_ranking_weights weights = c_str (
      write (
        make (
          View.object (
            (codes "weights", make (View.array (map (λ d. make (View.real d)) weights)))
            ∷ (codes "reason", make (View.text (codes "ok")))
            ∷ []))))

  unfoldable pub weight_loop : List Value → List Double → List Double × Answer
  weight_loop [] weights = (weights, ok)
  weight_loop (v ∷ vs) weights = elim (double_of j (view v)) [
    | none ↦ (weights, refused (codes "tgp proxy fail, no double weight"))
    | some w ↦ weight_loop vs (weights ++ w ∷ [])
  ]

  unfoldable pub decode_members :
      List Double → Option Text → Option (List Value) → List Double × Answer
  unfolding weight_loop
  decode_members weights (some reason) (some vs) =
      if same_text reason (codes "ok") then weight_loop vs weights else (weights, refused reason)
  decode_members weights _ _ = (weights, refused (codes "tgp proxy fail, unkown ms weights format"))

  abbrev pub as_text : Option Value → Option Text
  as_text none = none
  as_text (some v) = text_of j (view v)

  abbrev pub as_array : Option Value → Option (List Value)
  as_array none = none
  as_array (some v) = array_of j (view v)

  unfoldable pub decode_document : List Double → Option Value → Run (List Double × Answer)
  unfolding decode_members
  decode_document weights none =
      done (weights, refused (codes "tgp proxy fail, can't decode ms weights"))
  decode_document weights (some d) = do
    reason ← find j d (codes "reason")
    ws ← find j d (codes "weights")
    done (decode_members weights (as_text reason) (as_array ws))

  -- `decodeMSWeights(weight_json, weights, out)`: the new `weights` and the answer.
  unfoldable pub decode_ms_weights : Text → List Double → Run (List Double × Answer)
  unfolding decode_document
  decode_ms_weights weight_json weights = decode_document weights (parse (c_str weight_json))
