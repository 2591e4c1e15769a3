-- ===== src/Docker/Types.antt =====
-- What the program reads of a container that docker describes.
use traefik_kop.Prelude.{Option, List}
use traefik_kop.Text.{Str}
use traefik_kop.Text.Dict.{Dict}

-- What the program reads of docker's `InspectResponse`: a binding's host port, the published ports
-- by their keys (such as 80/tcp), the networks with their addresses (nil where there is none).
pub record Binding : Type 0 where
  pub host_port : Str

pub record NetworkSettings : Type 0 where
  pub ports : Dict (List Binding)
  pub networks : Dict (Option Str)

pub record HostConfig : Type 0 where
  pub port_bindings : Dict (List Binding)

pub record Container : Type 0 where
  pub id : Str
  pub name : Str
  pub labels : Dict Str
  pub network_settings : Option NetworkSettings
  pub host_config : Option HostConfig
