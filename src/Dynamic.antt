-- ===== src/Dynamic.antt =====
-- The dynamic configuration, with the fields that the program reads or writes; `R` is the type of
-- what else its structs hold (rules, TLS, health checks, ...), which the program only passes on.
use traefik_kop.Prelude.{Option, List}
use traefik_kop.Text.{Str}
use traefik_kop.Text.Dict.{Dict}

module _ (R : Type 0) where
  pub record Router : Type 0 where
    pub service : Str
    pub entry_points : List Str
    pub rest : R

  -- `dynamic.Server`
  pub record Server : Type 0 where
    pub url : Str
    pub scheme : Str
    pub port : Str
    pub rest : R

  -- `dynamic.TCPServer` and `dynamic.UDPServer`
  pub record StreamServer : Type 0 where
    pub address : Str
    pub port : Str
    pub rest : R

-- A load balancer with its servers.
pub record LoadBalancer (R S : Type 0) : Type 0 where
  pub servers : List S
  pub rest : R

pub record Service (R S : Type 0) : Type 0 where
  pub load_balancer : Option (LoadBalancer R S)
  pub rest : R

-- One protocol of the configuration; UDP has no middlewares. A nil map is an empty one.
pub record Section (R S : Type 0) : Type 0 where
  pub routers : Dict (Router R)
  pub services : Dict (Service R S)
  pub middlewares : Dict R

pub record Configuration (R : Type 0) : Type 0 where
  pub http : Option (Section R (Server R))
  pub tcp : Option (Section R (StreamServer R))
  pub udp : Option (Section R (StreamServer R))
  pub rest : R
