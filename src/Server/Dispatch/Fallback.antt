-- ===== src/Server/Dispatch/Fallback.antt =====
-- The handlers that `HandlerManager` of dev/svr/common/handler_manager.cpp gives, `DefaultHandler` for the
-- types that have none.
use lsf.Prelude.{
  ℕ, Bool, true, false, not, Option, none, some, if◌then◌else◌, ◌≡◌, arith, refl, subst,
}
use lsf.Server.Handler.{State, client_request, server_request, finish, World, RspTypes}
use lsf.Server.Handler.Database.{default_on}
use lsf.Server.Handler.Machine.{Handler}
use lsf.Server.Handler.Machine.Ranks.{rank, fits, weight, Lowers}
use lsf.Server.Handler.Machine.Callbacks.{finish-Lowers}
use lsf.Server.Handler.Machine.Lowering.{default_on-Lowers}
use lsf.Server.Handler.Machine.Outcome.{IsLowering, on_session_finish-Same}
use lsf.Server.Handler.Machine.Handlers.{SameIn, SameIn-branch, default_on-Same, Lowers-pick}
use lsf.Server.Dispatch.{
  HandlerManager, ends_request, fallback_handler, or_fallback, cs_instance, ss_instance,
  instance_of,
}
use lsf.Server.Dispatch.Events.{AllLowering}

request-Lowers :
    (s : State) (w : World)
    → fits s w ≡ true
    → ends_request s ≡ true
    → Lowers s w (some (finish, w))
unfolding ends_request rank weight
request-Lowers client_request w f e = finish-Lowers client_request w w f (omega arith) refl
request-Lowers server_request w f e = finish-Lowers server_request w w f (omega arith) refl
request-Lowers _ w f e = absurd (ground (arith, e))

fallback_handler-IsLowering : IsLowering fallback_handler
unfolding fallback_handler
fallback_handler-IsLowering =
    let types : RspTypes = record { cs_rsp_type = none; ss_rsp_type = none } in
    record {
      lowers = λ s w p f.
          Lowers-pick s w (ends_request s) (some (finish, w)) (default_on types s w)
            (request-Lowers s w f) (λ e. default_on-Lowers types s w p f);
      same = λ s s' w w' e. subst (SameIn w) e (
          SameIn-branch w (ends_request s) (some (finish, w)) (default_on types s w)
            (refl, (refl, refl)) (default_on-Same types s w));
      finishes = on_session_finish-Same types;
    }

or_fallback-IsLowering :
    (o : Option Handler) → ((h : Handler) → o ≡ some h → IsLowering h) → IsLowering (or_fallback o)
or_fallback-IsLowering none good = fallback_handler-IsLowering
or_fallback-IsLowering (some h) good = good h refl

choice-IsLowering :
    (b : Bool) (h k : Handler) → IsLowering h → IsLowering k → IsLowering (if b then h else k)
choice-IsLowering true h k hh hk = hh
choice-IsLowering false h k hh hk = hk

-- When all handlers that were added lower the measure, so does the one of any session.
pub instance_of-IsLowering :
    (hs : HandlerManager)
    → ((t : ℕ) (h : Handler) → hs.cs_handler t ≡ some h → IsLowering h)
    → ((t : ℕ) (h : Handler) → hs.ss_handler t ≡ some h → IsLowering h)
    → AllLowering hs
unfolding instance_of cs_instance ss_instance
instance_of-IsLowering hs cs ss (some t) o =
    choice-IsLowering (not (hs.cs_is_valid t)) fallback_handler (or_fallback (hs.cs_handler t))
      fallback_handler-IsLowering (or_fallback-IsLowering (hs.cs_handler t) (cs t))
instance_of-IsLowering hs cs ss none (some t) =
    choice-IsLowering (not (hs.ss_is_valid t)) fallback_handler (or_fallback (hs.ss_handler t))
      fallback_handler-IsLowering (or_fallback-IsLowering (hs.ss_handler t) (ss t))
instance_of-IsLowering hs cs ss none none = fallback_handler-IsLowering
