-- ===== src/Feed/Examples.antt =====
-- internal/cidrfeed/cidrfeed.go: a feed with comments, labels and a bad line, and two providers.
use velinx.Base.{◌≡◌, refl, ℕ, List, [], ◌∷◌, ◌++◌, Option, none, some, All, if◌then◌else◌}
use velinx.Go.Strings.{codes, same}
use velinx.Go.Same.{has_text}
use velinx.Feed.{
  Feed, no_feed, parse_list, fetched, fetch_failed, asn_failed, fetch, fetch_from, ripestat_base,
}
use velinx.Feed.Written.{Line, network, remark, blank, ends, comment, label, written, first_seen}
use velinx.Pbr.Classify.{print}
use velinx.Feed.Answers.{IsAnswered, fetch_from-Complete}

abbrev feed : List ℕ
feed = codes "# banks\n 1.2.3.9/24 SomeBank\n5.6.7.8;x\nno-ip\n1.2.3.0/24"

feed_read :
    parse_list feed ≡ record { cidrs = codes "1.2.3.0/24" ∷ codes "5.6.7.8/32" ∷ []; skipped = 1 }
unfolding parse_list
feed_read = refl

abbrev lines : List Line
lines =
    remark 0 (codes " banks")
    ∷ network 1 (record { addr = 0x01020309; bits = 24 }) (label (codes "SomeBank # of ours"))
    ∷ blank 2
    ∷ network 0 (record { addr = 0x05060708; bits = 32 }) (comment (codes "x"))
    ∷ network 3 (record { addr = 0x01020300; bits = 24 }) ends
    ∷ []

lines_written :
    written lines
    ≡ codes "# banks\n 1.2.3.9/24 SomeBank # of ours\n  \n5.6.7.8/32#x\n   1.2.3.0/24\n"
unfolding written print
lines_written = refl

lines_seen : first_seen lines [] ≡ codes "1.2.3.0/24" ∷ codes "5.6.7.8/32" ∷ []
unfolding first_seen print has_text
lines_seen = refl

-- The server knows one provider.
abbrev get : List ℕ → Option (List ℕ)
unfolding same
get url = if same url (ripestat_base ++ codes "13238") then some (codes "5.45.192.0/18") else none

abbrev decoded : List ℕ → Option (List (List ℕ))
decoded body = some (body ∷ [])

abbrev yandex : Feed
yandex = record { cidrs = codes "5.45.192.0/18" ∷ []; skipped = 0 }

fetched_provider : fetch get decoded (codes "asn: as13238,") ≡ fetched yandex
unfolding fetch get
fetched_provider = refl

-- The second provider is not known, so that nothing is fetched.
fetched_none : fetch get decoded (codes "asn:13238,7") ≡ fetch_failed (asn_failed (codes "7"))
unfolding fetch get
fetched_none = refl

fetched_from :
    fetch_from get decoded (codes "as13238,") (codes "as13238" ∷ [] ∷ []) no_feed 0 ≡ fetched yandex
unfolding fetch_from get
fetched_from = refl

fetch_from-Complete_example : All (IsAnswered get decoded yandex) (codes "as13238" ∷ [] ∷ [])
fetch_from-Complete_example =
    fetch_from-Complete get decoded (codes "as13238,") (codes "as13238" ∷ [] ∷ []) no_feed yandex 0
      fetched_from
