-- ===== src/Tests/Names.antt =====
-- Project names of rust/src/projects.rs, and the theorem at the name `..`.
use megaserver.Common.{◌≡◌, ◌≢◌, ◌↔◌, refl, All}
use megaserver.Common.Texts.{codes, is_blank}
use megaserver.Result.{ok, err}
use megaserver.Exec.{bad_project_name, empty_project_name}
use megaserver.App.Projects.Names.{
  trim, IsNameChar, sanitize_project_name, sanitize_project_name-eq-ok_iff,
}
use megaserver.Paths.{join}

sanitize_tests :
    (sanitize_project_name " shop-2 " ≡ ok "shop-2")
    × (sanitize_project_name "a/b" ≡ err (bad_project_name "a/b"))
    × (sanitize_project_name " " ≡ err empty_project_name)
    × (sanitize_project_name ".." ≡ ok "..")
    × (join (join "/srv/projects" "..") "releases" ≡ "/srv/projects/../releases")
unfolding sanitize_project_name trim is_blank join
sanitize_tests = (refl, refl, refl, refl, refl)

sanitize_project_name-eq-ok_iff_example :
    (sanitize_project_name ".." ≡ ok "..")
    ↔ ((".." ≡ trim "..") × (trim ".." ≢ "") × All IsNameChar (codes (trim "..")))
sanitize_project_name-eq-ok_iff_example = sanitize_project_name-eq-ok_iff ".." ".."
