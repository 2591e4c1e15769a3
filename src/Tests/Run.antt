-- ===== src/Tests/Run.antt =====
-- What a run of the program opens.
use traefik_kop.Prelude.Exec.{pure, lift, deref, gets, ignore, modify, ◌>>=◌, wrap}
use traefik_kop.Text
use traefik_kop.Text.{Str, str}
use traefik_kop.Text.Decimal.{format_uint}
use traefik_kop.Text.Dict
use traefik_kop.Docker.Names.{strip_docker}
use traefik_kop.Kv.Value.{is_struct}
use traefik_kop.Kv.Leaf.{leaf_string, is_empty_json_value, json_field_name}
use traefik_kop.Kv.Walk
use traefik_kop.Redis.Memory
use traefik_kop.Store
use traefik_kop.Store.{store, keep_conf_alive}
use traefik_kop.Store.{World, Deps, sentinel}
use traefik_kop.Store.Names.{own_keys}
use traefik_kop.Redis.Laws.{is_plain}

-- Opening this runs the store.
unfoldable pub opened : Unit {0}
unfolding pure lift deref gets ignore modify ◌>>=◌ wrap str Text.str_eq Text.elem Text.has_prefix
    Text.trim_suffix Text.contains Text.replace_all Text.split Text.sort format_uint Dict.lookup
    Dict.insert Dict.delete Dict.keys Dict.has Dict.text_at strip_docker is_struct leaf_string
    is_empty_json_value json_field_name Walk.new_kv Walk.key_name_paths Walk.join_path
    Walk.entry_name Walk.walk_error Walk.sprintf Walk.add Walk.add_leaf Walk.add_empty
    Walk.walk_typed_value Walk.config_to_kv Memory.glob_of Memory.get_of Memory.matching
    Memory.unlink_of Memory.add_members Memory.members_of Memory.difference Memory.rename_of
    Memory.expire_all Store.on Store.wrapped Store.sk Store.new_key Store.key_path
    Store.server_prefix Store.star Store.remove_keys Store.remove_old_keys Store.write_all
    Store.unlink_stale Store.remove_stale_of Store.remove_stale_server_keys Store.after_rename
    Store.swap_keys Store.swap_all Store.set_names Store.remove_old Store.remove_stale
    Store.sentinel is_plain own_keys Store.store Store.renew Store.keep_conf_alive_of
    Store.keep_conf_alive
opened = tt
