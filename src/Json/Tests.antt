-- ===== src/Json/Tests.antt =====
-- The JSON text of a concrete value.
use dota_mind.Prelude.{◌≡◌, refl}
use dota_mind.Prelude.Int.{negsuc}
use dota_mind.Prelude.Sort.{insert_sorted}
use dota_mind.Json.Defs.{null, num, str, arr, obj, nil, cons, end, field}
use dota_mind.Json.Text.{dumps}

dumps_example :
    dumps
      (obj (field "b" (arr (cons (num (negsuc 4)) (cons null nil))) (field "a" (str "x\"y") end)))
    ≡ "{\"a\":\"x\\\"y\",\"b\":[-5,null]}"
unfolding dumps insert_sorted
dumps_example = refl
