-- ===== src/Core/Engine/Policies.antt =====
-- What GetIamPolicy of core/engine.go gives after SetIamPolicy.
use cloud_tasks_emulator.Base.{◌≡◌, refl, ap, sym, ◌∙◌, false, Option, or_else, arith}
use cloud_tasks_emulator.Base.Bytes.{Bytes, bytes_eq, bytes_eq_refl}
use cloud_tasks_emulator.Base.Dict.{insert, lookup-insert}
use cloud_tasks_emulator.Core.Status.{ok, ◌>>=◌, >>=-eq-ok}
use cloud_tasks_emulator.Core.Queue.{QueueState}
use cloud_tasks_emulator.Core.Engine.{Engine, queue_locked}
use cloud_tasks_emulator.Core.Engine.Iam.{
  resource_queue, get_iam_policy, try_set_iam_policy, set_iam_policy,
}
use cloud_tasks_emulator.Core.Engine.Lifecycle.{reply-eq-ok}

module _ {P : Type 0} where
  resource_queue_lem :
      (e e' : Engine P) (resource : Bytes)
      → e'.queues ≡ e.queues
      → resource_queue e' resource ≡ resource_queue e resource
  unfolding resource_queue queue_locked ◌>>=◌
  resource_queue_lem e e' resource same = rw same refl

  -- The policy of a resource behind a stored one.
  get_iam_policy-stored :
      (empty_policy : P) (e : Engine P) (resource other : Bytes) (stored : P) (qs : QueueState)
      → resource_queue e resource ≡ ok qs
      → bytes_eq resource other ≡ false
      → (get_iam_policy empty_policy
            (record e { policies = insert resource stored e.policies })
            resource
          ≡ ok stored)
        × (get_iam_policy empty_policy
              (record e { policies = insert resource stored e.policies })
              other
            ≡ get_iam_policy empty_policy e other)
  unfolding get_iam_policy ◌>>=◌
  get_iam_policy-stored empty_policy e resource other stored qs at apart =
      let us = record e { policies = insert resource stored e.policies } in
      (
        rw
            (
              resource_queue_lem e us resource refl,
              at,
              lookup-insert resource resource stored e.policies,
              bytes_eq_refl resource,
              or_else,
            )
            refl,
        rw
            (
              resource_queue_lem e us other refl,
              lookup-insert resource other stored e.policies,
              apart,
            )
            refl,
      )

  -- After SetIamPolicy without an error, GetIamPolicy of the resource gives the policy that was
  -- returned, which is the given one, or the empty one if none was given; for another resource it
  -- gives what it gave before.
  pub set_iam_policy-get_iam_policy :
      (empty_policy : P) (e e' : Engine P) (resource other : Bytes) (policy : Option P) (stored : P)
      → bytes_eq resource other ≡ false
      → set_iam_policy empty_policy e resource policy ≡ (e', ok stored)
      → (get_iam_policy empty_policy e' resource ≡ ok stored)
        × (stored ≡ or_else policy empty_policy)
        × (get_iam_policy empty_policy e' other ≡ get_iam_policy empty_policy e other)
  unfolding set_iam_policy try_set_iam_policy
  set_iam_policy-get_iam_policy empty_policy e e' resource other policy stored apart h =
      let (qs, at, h1) = >>=-eq-ok (resource_queue e resource) _ (reply-eq-ok e _ h) in
      let stored_back =
        get_iam_policy-stored empty_policy e resource other (or_else policy empty_policy) qs at
          apart in
      let made : record e { policies = insert resource (or_else policy empty_policy) e.policies }
          ≡ e' =
        ground arith in
      let same : or_else policy empty_policy ≡ stored = ground arith in
      (
        ap (λ x. get_iam_policy empty_policy x resource) (sym made) ∙ stored_back.0 ∙ ap ok same,
        sym same,
        ap (λ x. get_iam_policy empty_policy x other) (sym made) ∙ stored_back.1,
      )
