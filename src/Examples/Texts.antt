-- ===== src/Examples/Texts.antt =====
-- Texts cut and joined, addresses tested, and URLs given to handlers.
use tgproxy.Common.{ℕ, ◌≡◌, ◌↔◌, refl, true, List, [], ◌∷◌, some, Text, codes, All, done, arith}
use tgproxy.Common.Int.{pos}
use tgproxy.Utils.{split}
use tgproxy.Utils.Join.{join, Lacks, join-split, split-join}
use tgproxy.Utils.Lan.{is_lan, dotted, address, InDocumentedRange, is_lan_iff}
use tgproxy.Utils.LocalIp.{get_local_ip, Finds, get_local_ip-Finds}
use tgproxy.Proxy.{model, route}
use tgproxy.Proxy.Routes.{Addresses, route-model}

two_terms : split (codes "/news/7") (codes "/") [] ≡ some (codes "" ∷ codes "news" ∷ codes "7" ∷ [])
unfolding split tgproxy.Utils.find_first_of tgproxy.Utils.first_of tgproxy.Utils.substr
two_terms = refl

join-split_example :
    (ps : List Text) × (split (codes "/news/7") (b'/' ∷ []) [] ≡ some ps)
    × (join b'/' ps ≡ codes "/news/7")
    × All (Lacks b'/') ps
join-split_example = join-split b'/' (codes "/news/7") (omega arith)

abbrev texts : List Text
texts = codes "a" ∷ codes "" ∷ codes "b" ∷ []

split-join_example : split (join b'/' texts) (b'/' ∷ []) [] ≡ some texts
unfolding join
split-join_example =
    split-join b'/' texts (λ e. cc)
      (((λ e. absurd (omega (arith, e))), tt), (tt, (((λ e. absurd (omega (arith, e))), tt), tt)))
      (omega arith)

is_lan_iff_example :
    (is_lan (pos 0) (pos 0) (dotted 172 20 (codes "0.1")) ≡ true)
    ↔ InDocumentedRange (address 172 20 0 1)
is_lan_iff_example =
    is_lan_iff (pos 0) (pos 0) 172 20 0 1 (codes "0.1") (omega arith) (omega arith) (omega arith)
      (omega arith)

-- One entry that was reported, and what stands in the buffer behind it.
abbrev entries : ℕ → Text
entries ℕ.zero = codes "10.0.0.7"
entries (ℕ.suc i) = codes "127.0.0.1"

get_local_ip-Finds_example :
    ((get_local_ip (pos 0) (pos 0) entries true 1 (codes "")).0 ≡ pos 0)
    × Finds
        (pos 0)
        (pos 0)
        entries
        (codes "")
        1
        (get_local_ip (pos 0) (pos 0) entries true 1 (codes "")).1
get_local_ip-Finds_example = get_local_ip-Finds (pos 0) (pos 0) entries 1 (codes "")

route-model_example :
    (route (codes "/news/7") ≡ done (model (codes "news") (codes "7")))
    ↔ Addresses (codes "/news/7") (codes "news") (codes "7")
route-model_example = route-model (codes "/news/7") (codes "news") (codes "7") (omega arith)
