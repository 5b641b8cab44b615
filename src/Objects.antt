-- ===== src/Objects.antt =====
-- The Kubernetes objects that the controllers work with, with the fields that they read and those of which
-- keys and labels are made: k8s.io/api/core/v1 Pod, k8s.io/api/apps/v1 StatefulSet and the program's
-- Swarm. A pointer that may be nil is an `Option`; of a time or a terminated state only its presence is
-- read.
use k8s_swarm.Prelude.{ℕ, List, Option, Bool, Bytes, Dict}
use k8s_swarm.Storage.Swarms.{Swarm}

pub record PodCondition : Type 0 where
  pub type_of : Bytes
  pub status : Bytes

pub record ContainerStatus : Type 0 where
  pub terminated : Option (Unit {0})

pub record Pod : Type 0 where
  pub namespace : Bytes
  pub name : Bytes
  pub labels : Dict Bytes
  pub deletion_timestamp : Option ℕ
  pub node_name : Bytes
  pub host_network : Bool
  pub pod_ip : Bytes
  pub phase : Bytes
  pub conditions : List PodCondition
  pub container_statuses : List ContainerStatus

pub record StatefulSet : Type 0 where
  pub namespace : Bytes
  pub name : Bytes
  pub labels : Dict Bytes
  pub replicas : Option ℕ

-- A Swarm, with its labels.
pub record SwarmObject : Type 0 where
  pub labels : Dict Bytes
  pub resource : Swarm

-- A runtime.Object: one of the kinds that are watched, or another.
pub data Object : Type 0 where
  pod : Pod → Object
  stateful_set : StatefulSet → Object
  swarm : SwarmObject → Object
  unknown : Object
