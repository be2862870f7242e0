-- ===== src/Gateway/ClientHub/Sessions/Soundness.antt =====
-- The invariants of the hub that every step of its connections keeps.
use agent_console.Prelude.{
  ℕ, Str, is_empty, false, Option, none, some, [], ◌∷◌, ◌≡◌, refl, sym, ◌∙◌, arith, Bool-cases, inl,
  inr,
}
use agent_console.Prelude.Text.Trim.{trim_space}
use agent_console.Prelude.Dict
use agent_console.Prelude.Dict.{Dict}
use agent_console.Prelude.Time.{TimeText}
use agent_console.Gateway.Registry
use agent_console.Gateway.Registry.{StoredApprovalRequest}
use agent_console.Gateway.Registry.Approvals.{
  get-added, get-removed, mark_offline-pending_approvals,
}
use agent_console.Gateway.ClientHub.{ClientHub, on_some, store_snapshot}
use agent_console.Gateway.ClientHub.Mirror.{
  IsMirrored, store_snapshot-IsMirrored, drop_client-IsMirrored,
}
use agent_console.Gateway.ClientHub.Cleanup.{IsGone, drop_client-IsGone}
use agent_console.Gateway.ClientHub.Commands.{IsSettled, resolve_pending_command-IsSettled}
use agent_console.Gateway.ClientHub.Commands.Runs.{gone-IsSettled}
use agent_console.Gateway.ClientHub.Connections.{resolve_pending_command}
use agent_console.Gateway.ClientHub.Events.{
  add_approval, remove_approval, finish_approval, clear_approval_request,
}
use agent_console.Gateway.ClientHub.Invariants.{IsPassive, IsStable, IsRobust}

-- The machine that the registry holds of an approval.
abbrev asking_machine : Option StoredApprovalRequest → Option Str
asking_machine none = none
asking_machine (some a) = some a.machine_id

-- The hub knows of each approval that waits in the registry which machine asked, and of no other.
pub record ApprovalsAgree (h : ClientHub) : Type 0 where
  pub agree :
      (r : Registry.Store) (id : Str)
      → h.registry ≡ some r
      → Dict.get h.approval_requests id ≡ asking_machine (Dict.get r.pending_approvals id)

-- A change of the registry, and the hub's table along with it.
agree-change :
    (f : Registry.Store → Registry.Store) (requests : Dict Str) (h : ClientHub)
    (o : Option Registry.Store)
    → h.registry ≡ o
    → ((r : Registry.Store) (id : Str)
        → Dict.get h.approval_requests id ≡ asking_machine (Dict.get r.pending_approvals id)
        → Dict.get requests id ≡ asking_machine (Dict.get (f r).pending_approvals id))
    → ApprovalsAgree h
    → (r : Registry.Store) (id : Str) → on_some f o ≡ some r
    → Dict.get requests id ≡ asking_machine (Dict.get r.pending_approvals id)
agree-change f requests h none eo change a r id e = ground arith
agree-change f requests h (some old) eo change a r id e =
    rw⁻¹ (the_same e) (change old id (a.agree old id eo))
  where
    the_same : some (f old) ≡ some r → f old ≡ r
    the_same q = ground arith

ApprovalsAgree-IsPassive : (time : TimeText) → IsPassive time ApprovalsAgree
unfolding store_snapshot
ApprovalsAgree-IsPassive time = record {
  stored = λ m state turns h a. record { agree = a.agree };
  told = λ console h a. record { agree = a.agree };
  routed = λ router h a. record { agree = a.agree };
  registered = λ f h same a. record {
    agree =
        agree-change f h.approval_requests h h.registry refl (λ r id e. ground (arith, same r, e))
          a;
  };
}

removed-ApprovalsAgree :
    (id : Str) (h : ClientHub)
    → is_empty id ≡ false
    → ApprovalsAgree h
    → ApprovalsAgree (remove_approval id h)
unfolding remove_approval
removed-ApprovalsAgree id h e a = record {
  agree =
      agree-change (Registry.remove_pending_approval id) (Dict.remove h.approval_requests id) h
        h.registry refl
        (λ r k er.
          ground (arith, get-removed id r k e, Dict.get-remove h.approval_requests id k, er))
        a;
}

ApprovalsAgree-IsStable : (time : TimeText) → IsStable time ApprovalsAgree
unfolding add_approval resolve_pending_command
ApprovalsAgree-IsStable time = record {
  passive = ApprovalsAgree-IsPassive time;
  added = λ m p h e a. record {
    agree =
        agree-change (Registry.upsert_pending_approval m p)
          (Dict.put h.approval_requests p.request_id m) h h.registry refl
          (λ r k er.
            ground
              (arith, get-added m p r k e, Dict.get-put h.approval_requests p.request_id m k, er))
          a;
  };
  removed = removed-ApprovalsAgree;
  answered = λ id result h a. record { agree = a.agree };
}

gone-ApprovalsAgree :
    (m : Str) (h g : ClientHub) → IsGone m h g → ApprovalsAgree h → ApprovalsAgree g
gone-ApprovalsAgree m h g gone a = record {
  agree = λ r id e. rw (gone.approvals) (
      agree-change (Registry.mark_offline m) h.approval_requests h h.registry refl
        (λ old k ek. ground (arith, mark_offline-pending_approvals m old, ek)) a r id
        (sym (gone.registry) ∙ e));
}

pub ApprovalsAgree-IsRobust : (time : TimeText) → IsRobust time ApprovalsAgree
ApprovalsAgree-IsRobust time = record {
  stable = ApprovalsAgree-IsStable time;
  connected = λ clients h a. record { agree = a.agree };
  lost = λ m h hm a. gone-ApprovalsAgree m h _ (drop_client-IsGone time m h hm) a;
}

pub IsMirrored-IsRobust : (time : TimeText) → IsRobust time IsMirrored
unfolding add_approval remove_approval resolve_pending_command
IsMirrored-IsRobust time = record {
  stable = record {
    passive = record {
      stored = λ m state turns h p.
          store_snapshot-IsMirrored time m state _ (record { agrees = p.agrees });
      told = λ console h p. record { agrees = p.agrees };
      routed = λ router h p. record { agrees = p.agrees };
      registered = λ f h same p. record { agrees = p.agrees };
    };
    added = λ m payload h e p. record { agrees = p.agrees };
    removed = λ id h e p. record { agrees = p.agrees };
    answered = λ id result h p. record { agrees = p.agrees };
  };
  connected = λ clients h p. record { agrees = p.agrees };
  lost = λ m h hm p. drop_client-IsMirrored time m h hm p;
}

pub IsSettled-IsRobust : (time : TimeText) → IsRobust time IsSettled
unfolding store_snapshot add_approval remove_approval
IsSettled-IsRobust time = record {
  stable = record {
    passive = record {
      stored = λ m state turns h p. record { keyed = p.keyed; waiting = p.waiting; sent = p.sent };
      told = λ console h p. record { keyed = p.keyed; waiting = p.waiting; sent = p.sent };
      routed = λ router h p. record { keyed = p.keyed; waiting = p.waiting; sent = p.sent };
      registered = λ f h same p. record { keyed = p.keyed; waiting = p.waiting; sent = p.sent };
    };
    added = λ m payload h e p. record { keyed = p.keyed; waiting = p.waiting; sent = p.sent };
    removed = λ id h e p. record { keyed = p.keyed; waiting = p.waiting; sent = p.sent };
    answered = resolve_pending_command-IsSettled;
  };
  connected = λ clients h p. record { keyed = p.keyed; waiting = p.waiting; sent = p.sent };
  lost = λ m h hm p. gone-IsSettled m h _ (drop_client-IsGone time m h hm) p;
}

pub given_id : (id : Str) → is_empty (trim_space id) ≡ false → is_empty id ≡ false
unfolding trim_space
given_id [] e = e
given_id (c ∷ id) e = refl

-- The API takes the approval out of both.
pub finish-ApprovalsAgree :
    (id : Str) (h : ClientHub) → ApprovalsAgree h → ApprovalsAgree (finish_approval id h)
unfolding finish_approval clear_approval_request remove_approval
finish-ApprovalsAgree id h a = elim (Bool-cases (is_empty (trim_space id))) [
  | inl e ↦ rw e a
  | inr e ↦ rw e (removed-ApprovalsAgree id h (given_id id e) a)
]

pub counter-IsRobust :
    (time : TimeText) (n : ℕ) → IsRobust time (λ (h : ClientHub). h.next_request_id ≡ n)
unfolding store_snapshot add_approval remove_approval resolve_pending_command
counter-IsRobust time n = record {
  stable = record {
    passive = record {
      stored = λ m state turns h p. p;
      told = λ console h p. p;
      routed = λ router h p. p;
      registered = λ f h same p. p;
    };
    added = λ m payload h e p. p;
    removed = λ id h e p. p;
    answered = λ id result h p. p;
  };
  connected = λ clients h p. p;
  lost = λ m h hm p. (drop_client-IsGone time m h hm).counter ∙ p;
}
