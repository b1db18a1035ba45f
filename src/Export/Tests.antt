-- ===== src/Export/Tests.antt =====
-- daemon/src/bin/export.rs: the theorems at a small page.
use php_periscope.Common.{some, [], ◌++◌, ◌≡◌, ◌⊎◌, false, true}
use php_periscope.Common.Text.{Text, codes}
use php_periscope.Common.Results.{Result, ok}
use php_periscope.Filter.{starts_with, contains_text}
use php_periscope.Export.Assets.{inline_assets}
use php_periscope.Export.Main.{escape, snippet_of, inject}
use php_periscope.Export.Page.{head_end, inject_lem}
use php_periscope.Export.Ends.{inline_assets-ends}

abbrev small_page : Text
small_page = codes "<head><link rel=\"stylesheet\" href=\"/a.css\"></head>"

abbrev blob : Text
blob = codes "{\"sql\":\"</script>\"}"

inject_lem_example :
    (before : Text) × (after : Text) × (inject (snippet_of blob) small_page
      ≡ before
        ++ (codes "<script>window.PERISCOPE_TRACE="
            ++ codes "{\"sql\":\"<\\/script>\"}"
            ++ codes ";</script>")
        ++ after)
    × (before ++ after ≡ small_page)
    × (contains_text before head_end ≡ false)
    × ((starts_with head_end after ≡ true)
        ⊎ ((before ≡ []) × (contains_text small_page head_end ≡ false)))
    × (contains_text (codes "{\"sql\":\"<\\/script>\"}") (codes "</") ≡ false)
unfolding escape
inject_lem_example = inject_lem blob small_page

inline_assets-ends_example :
    (r : Result Text) × (inline_assets (λ href. ok href) small_page ≡ some r)
inline_assets-ends_example = inline_assets-ends (λ href. ok href) small_page
