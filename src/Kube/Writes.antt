-- ===== src/Kube/Writes.antt =====
-- What a method sends: the requests that it adds to the calls, each of a kind that is allowed.
use redis_foxtrot_autoscaler.Prelude.{List, ◌∷◌, String}
use redis_foxtrot_autoscaler.Cluster.{Labels}
use redis_foxtrot_autoscaler.Kube.Objects.{Key}
use redis_foxtrot_autoscaler.Kube.Server.{Request, list_pods, get_pod, get_job, query}

-- The calls `after` are those `before` with allowed requests added.
pub data Sends (R : Request → Type 0) (before : List Request) : List Request → Type 0 where
  nothing : Sends R before before
  also :
      {q : Request} {after : List Request} → R q → Sends R before after → Sends R before (q ∷ after)

pub then-Sends :
    {R : Request → Type 0} {h h' h'' : List Request} → Sends R h h' → Sends R h' h'' → Sends R h h''
then-Sends a nothing = a
then-Sends a (also r b) = also r (then-Sends a b)

-- The reads and queries of a round of monitoring are allowed.
pub record Reads (R : Request → Type 0) : Type 0 where
  pub pods : (namespace : String) (labels : Labels) → R (list_pods namespace labels)
  pub pod : (k : Key) → R (get_pod k)
  pub job : (k : Key) → R (get_job k)
  pub metrics : (text : String) → R (query text)
