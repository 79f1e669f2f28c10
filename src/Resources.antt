-- ===== src/Resources.antt =====
-- The resources that the controller keeps: `configMapForRedisCluster`, `serviceForRedisCluster`,
-- `statefulSetForRedisCluster` and `serviceMonitorForRedisCluster` of
-- internal/controller/rediscluster_controller.go.
use redis_foxtrot_autoscaler.Prelude.{[], ◌∷◌, String, ◌^^◌}
use redis_foxtrot_autoscaler.Cluster.{RedisCluster}
use redis_foxtrot_autoscaler.Cluster.Index.{total_replicas}
use redis_foxtrot_autoscaler.Kube.{ConfigMap, Service, StatefulSet, ServiceMonitor, Container}
use redis_foxtrot_autoscaler.Jobs.{get_labels, headless_name, redis_image}

abbrev config_name : RedisCluster → String
config_name c = c.name ^^ "-config"

abbrev redis_conf : String
redis_conf =
    "port 6379\ncluster-enabled yes\ncluster-config-file /data/nodes.conf\n"
    ^^ "cluster-node-timeout 5000\nappendonly yes\nbind 0.0.0.0\n"

unfoldable pub config_map_for : RedisCluster → ConfigMap
config_map_for c = record {
  name = config_name c;
  namespace = c.namespace;
  labels = get_labels c;
  contents = ("redis.conf", redis_conf) ∷ [];
}

unfoldable pub service_for : RedisCluster → Service
service_for c = record {
  name = headless_name c;
  namespace = c.namespace;
  labels = get_labels c;
  cluster_ip = "None";
  selector = get_labels c;
  ports = ("redis", 6379) ∷ ("metrics", 9121) ∷ [];
}

redis_container : RedisCluster → Container
redis_container c = record {
  name = "redis";
  image = redis_image c;
  command = "redis-server" ∷ "/conf/redis.conf" ∷ [];
  args = [];
  ports = ("redis", 6379) ∷ [];
  mounts = ("config", "/conf") ∷ ("data", "/data") ∷ [];
  requests = [];
  limits = [];
}

exporter_container : Container
exporter_container = record {
  name = "redis-exporter";
  image = "bitnamilegacy/redis-exporter:1.59.0";
  command = [];
  args = "--redis.addr=redis://localhost:6379" ∷ [];
  ports = ("metrics", 9121) ∷ [];
  mounts = [];
  requests = ("cpu", "100m") ∷ ("memory", "128Mi") ∷ [];
  limits = ("cpu", "200m") ∷ ("memory", "256Mi") ∷ [];
}

unfoldable pub stateful_set_for : RedisCluster → StatefulSet
unfolding redis_container exporter_container
stateful_set_for c = record {
  name = c.name;
  namespace = c.namespace;
  labels = get_labels c;
  replicas = total_replicas c.spec;
  service_name = headless_name c;
  selector = get_labels c;
  template_labels = get_labels c;
  annotations =
      ("prometheus.io/scrape", "true")
      ∷ ("prometheus.io/port", "9121")
      ∷ ("prometheus.io/path", "/metrics")
      ∷ [];
  config_volume = ("config", config_name c);
  containers = redis_container c ∷ exporter_container ∷ [];
  claim = ("data", "ReadWriteOnce", "1Gi");
}

unfoldable pub service_monitor_for : RedisCluster → Service → ServiceMonitor
service_monitor_for c svc = record {
  name = c.name;
  namespace = c.namespace;
  labels = ("release", "prometheus") ∷ ("app", "redis-cluster") ∷ [];
  selector = svc.labels;
  port = "metrics";
  interval = "15s";
  path = "/metrics";
}
