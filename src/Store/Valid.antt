-- ===== src/Store/Valid.antt =====
-- internal/store/store.go: replacements and deletes of an accepted profile.
use velinx.Base.{String, Bool, true, false}
use velinx.Model.{Profile}
use velinx.Model.Validate.Accepted.{Accepted}
use velinx.Store.{Store, without}
use velinx.Model.Names.{Names}
use velinx.Store.{Op}

abbrev minus_rule : String → Profile → Profile
minus_rule k p = record p { rules = without (λ x. x.id) k p.rules }

abbrev minus_list : String → Profile → Profile
minus_list k p = record p { routing_lists = without (λ x. x.id) k p.routing_lists }

-- The requests that check the profile or take something out of it.
unfoldable pub keeps_valid : Op → Bool
keeps_valid (Op.replaces p) = true
keeps_valid (Op.deletes_endpoint k) = true
keeps_valid (Op.deletes_group k) = true
keeps_valid (Op.deletes_rule k) = true
keeps_valid (Op.deletes_list k) = true
keeps_valid _ = false
