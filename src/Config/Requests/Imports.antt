-- ===== src/Config/Requests/Imports.antt =====
-- internal/server/config.go: an exported config that is imported again.
use velinx.Base.{
  ◌≡◌, refl, ap, ◌∙◌, inl, inr, arith, Bool, true, false, [], ◌∷◌, Option, none, some, ℤ, pos,
  negsuc, Bool-cases,
}
use velinx.Go.Strings.{same}
use velinx.Go.HostPort.{split_host_port}
use velinx.Go.Same.{same_refl}
use velinx.Config.{Text, Config, mask, redacted, redacted_mark, same_int, Subscription}
use velinx.Config.Validate.{validate_config, check_rest}
use velinx.Config.Requests.{
  Server, Response, saved, reconcile_listen, reconciled, apply_config_fields, persist_config,
  same_ports, same_bool, restart_needed, persist_and_answer, if_valid, if_reconciled, unmasked,
  unredacted, import_config, export_config,
}

unmasked-mask : (t : Text) → unmasked (mask t) t ≡ t
unfolding unmasked mask
unmasked-mask [] = refl
unmasked-mask (c ∷ s) = refl

unmasked_self : (t : Text) → unmasked t t ≡ t
unfolding unmasked
unmasked_self t = elim (Bool-cases (same t redacted_mark)) [ inl e ↦ rw e refl | inr e ↦ rw e refl ]

same_int_refl : (i : ℤ) → same_int i i ≡ true
unfolding same_int
same_int_refl (pos n) = ground arith
same_int_refl (negsuc n) = ground arith

same_bool_refl : (b : Bool) → same_bool b b ≡ true
unfolding same_bool
same_bool_refl true = refl
same_bool_refl false = refl

-- What is exported is the config, but for the subscription and the masks.
exported :
    (secrets : Bool) (s : Server)
    → (x : Subscription) × (unredacted s.cfg (export_config secrets s)
        ≡ record (s.cfg) { subscription = x })
unfolding export_config redacted unredacted
exported true s = (
  s.cfg.subscription,
  rw (unmasked_self s.cfg.clash.secret, unmasked_self s.cfg.watchdog.notify_url, unredacted) refl,
)
exported false s = (
  (redacted s.cfg).subscription,
  rw (unmasked-mask s.cfg.clash.secret, unmasked-mask s.cfg.watchdog.notify_url, unredacted) refl,
)

-- The subscription decides nothing that a request checks.
restart_needed_same :
    (c : Config) (x : Subscription) → restart_needed c (record c { subscription = x }) ≡ false
unfolding restart_needed same_ports
restart_needed_same c x =
    rw
      (
        same_refl c.listen,
        same_int_refl c.ports.ui,
        same_int_refl c.ports.clash,
        same_int_refl c.ports.dns,
        same_int_refl c.ports.mixed,
        same_refl c.sing_box.bin,
        same_refl c.sing_box.config,
        same_refl c.clash.controller,
        same_refl c.clash.secret,
        same_bool_refl c.demo,
      )
      refl

pub with_subscription : Subscription → Option Config → Option Config
with_subscription x none = none
with_subscription x (some c) = some (record c { subscription = x })

pub reconciled_with :
    (c : Config) (x : Subscription) (o : Option (Text × Text))
    → reconciled (record c { subscription = x }) o ≡ with_subscription x (reconciled c o)
unfolding reconciled with_subscription
reconciled_with c x none = refl
reconciled_with c x (some (host, port)) = refl

pub reconcile_same :
    (c : Config) (x : Subscription)
    → reconcile_listen c ≡ some c
    → reconcile_listen (record c { subscription = x }) ≡ some (record c { subscription = x })
unfolding reconcile_listen with_subscription
reconcile_same c x h = reconciled_with c x (split_host_port c.listen) ∙ ap (with_subscription x) h

pub validate_same :
    (c : Config) (x : Subscription)
    → validate_config (record c { subscription = x }) ≡ validate_config c
unfolding validate_config check_rest
validate_same c x = refl

-- What `Save` says of the imported config.
unfoldable pub answer : Option Text → Server → Server × Response
answer none s = (record s { file = s.cfg }, saved false)
answer (some e) s = (s, Response.save_failed e)

persisted :
    (save : Option Text) (s : Server) (x : Subscription)
    → persist_and_answer save (record (s.cfg) { subscription = x }) s ≡ answer save s
unfolding persist_and_answer persist_config apply_config_fields answer
persisted none s x = rw (restart_needed_same s.cfg x) refl
persisted (some e) s x = refl

-- A config that has the port of the panel in its bind address and is valid is exported, with its secrets
-- or with masks in their place, and imported again: nothing of it changes, no secret either, it stands
-- in the file if it could be saved, and no restart is needed.
pub import_config-export_config :
    (secrets : Bool) (save : Option Text) (s : Server)
    → reconcile_listen s.cfg ≡ some s.cfg
    → validate_config s.cfg ≡ none
    → import_config (some (export_config secrets s)) save s ≡ answer save s
unfolding import_config if_reconciled if_valid persist_and_answer persist_config apply_config_fields
    answer
import_config-export_config secrets save s r v =
    let (x, e) = exported secrets s in
    ap (λ c. if_reconciled save s (reconcile_listen c)) e
    ∙ ap (if_reconciled save s) (reconcile_same s.cfg x r)
    ∙ ap (if_valid save (record (s.cfg) { subscription = x }) s) (validate_same s.cfg x ∙ v)
    ∙ persisted save s x
