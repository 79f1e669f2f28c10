-- ===== src/Autoscaler/Round.antt =====
-- A round of the autoscaler as one move of the state machine, together with the statuses that it
-- sends to the server.
use mathlib.Core.Path.{subst}
use redis_foxtrot_autoscaler.Prelude.{◌≡◌, refl, ap, ◌∙◌, sym, List}
use redis_foxtrot_autoscaler.Cluster.{RedisCluster, RedisClusterSpec, RedisClusterStatus}
use redis_foxtrot_autoscaler.Kube.{
  State, Action, Outcome, Request, Key, Job, Resource, Platform, UpdateLaws, Sends, nothing, also,
  then-Sends, update_status, modify_status, modify_spec, put_status, put_status-status, put_cluster,
  put_cluster-cluster, drop_job, or_else, or_else_cases, fail_api,
}
use redis_foxtrot_autoscaler.Infrastructure.{reconcile_owned, create_owned_job}
use redis_foxtrot_autoscaler.Infrastructure.Effects.{
  reconcile_owned-cluster, create_owned_job-cluster,
}
use redis_foxtrot_autoscaler.Infrastructure.Writes.{reconcile_owned-Sends, create_owned_job-Sends}
use redis_foxtrot_autoscaler.Autoscaler.Machine.{Move, stay}

-- A status that is sent is a move away from `st`.
abbrev pub Saves : RedisClusterStatus → Request → Type 0
Saves st (update_status c) = Move st c.status
Saves st _ = Unit

-- Before its move the round has the status that it began with.
pub record Before (st : RedisClusterStatus) (h : List Request) (s : State) : Type 0 where
  pub same : s.cluster.status ≡ st
  pub sent : Sends (Saves st) h s.calls

pub record Round (st : RedisClusterStatus) (h : List Request) (s : State) : Type 0 where
  pub move : Move st s.cluster.status
  pub sent : Sends (Saves st) h s.calls

pub start_round : (s : State) → Before s.cluster.status s.calls s
start_round s = record { same = refl; sent = nothing }

pub rest : {st : RedisClusterStatus} {h : List Request} {s : State} → Before st h s → Round st h s
rest b = record { move = stay b.same; sent = b.sent }

-- One change of the status is the move.
pub moved :
    {st : RedisClusterStatus} {h : List Request} (f : RedisClusterStatus → RedisClusterStatus)
    (s : State)
    → Before st h s
    → Move st (f st)
    → Round st h (modify_status f s).1
moved {st} f s b m = record { move = subst (λ x. Move st x) (ap f (sym b.same)) m; sent = b.sent }

module _ {F : Type 0} (p : Platform F) where
  pub owned-Before :
      {st : RedisClusterStatus} {h : List Request} (x : Resource) (s : State)
      → Before st h s
      → Before st h (reconcile_owned p x s).1
  owned-Before {st} x s b = record {
    same = ap (λ (c : RedisCluster). c.status) (reconcile_owned-cluster p x s) ∙ b.same;
    sent = then-Sends b.sent (reconcile_owned-Sends p (Saves st) x tt tt tt s);
  }

  pub job-Before :
      {st : RedisClusterStatus} {h : List Request} (j : Job) (s : State)
      → Before st h s
      → Before st h (create_owned_job p j s).1
  job-Before {st} j s b = record {
    same = ap (λ (c : RedisCluster). c.status) (create_owned_job-cluster p j s) ∙ b.same;
    sent = then-Sends b.sent (create_owned_job-Sends p (Saves st) j s tt);
  }

  pub drop-Before :
      {st : RedisClusterStatus} {h : List Request} (k : Key) (s : State)
      → Before st h s
      → Before st h (drop_job p k s).1
  drop-Before k s b = record { same = b.same; sent = also tt b.sent }

  pub drop-Round :
      {st : RedisClusterStatus} {h : List Request} (k : Key) (s : State)
      → Round st h s
      → Round st h (drop_job p k s).1
  drop-Round k s r = record { move = r.move; sent = also tt r.sent }

  module _ (laws : UpdateLaws p) where
    pub saved-Round :
        {st : RedisClusterStatus} {h : List Request} (s : State)
        → Round st h s
        → Round st h (put_status p s).1
    saved-Round {st} s r = record {
      move = subst (λ x. Move st x) (sym (put_status-status p laws s)) r.move;
      sent = also r.move r.sent;
    }

    -- What follows a save keeps what the save has done.
    pub save-Round :
        {st : RedisClusterStatus} {h : List Request} (next : Action Outcome) (s : State)
        → Round st h s
        → ((t : State) → Round st h t → Round st h (next t).1)
        → Round st h (or_else (put_status p) fail_api next s).1
    save-Round {st} {h} next s r quiet =
        or_else_cases (Round st h) (put_status p) fail_api next s (saved-Round s r)
          (quiet (put_status p s).1 (saved-Round s r))

    -- A change of the spec is saved before the move.
    pub spec-Round :
        {st : RedisClusterStatus} {h : List Request} (f : RedisClusterSpec → RedisClusterSpec)
        (next : Action Outcome) (s : State)
        → Before st h s
        → ((t : State) → Before st h t → Round st h (next t).1)
        → Round st h (or_else (put_cluster p) fail_api next (modify_spec f s).1).1
    spec-Round {st} {h} f next s b goes_on =
        let s' = (modify_spec f s).1 in
        let b' : Before st h (put_cluster p s').1 = record {
          same = ap (λ (c : RedisCluster). c.status) (put_cluster-cluster p laws s') ∙ b.same;
          sent = also tt b.sent;
        } in
        or_else_cases (Round st h) (put_cluster p) fail_api next s' (rest b')
          (goes_on (put_cluster p s').1 b')
