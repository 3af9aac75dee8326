-- ===== src/Login/RedirectTests.antt =====
-- Redirects after a login, to a path of the application and to another host.
use framework_kyrux.Prelude.{◌≡◌, refl}
use framework_kyrux.Login.Redirect.{next_url}

other_host_refused : next_url "//evil.com" "/" ≡ "/"
unfolding next_url
other_host_refused = refl

backslash_refused : next_url "/\\evil.com" "/" ≡ "/"
unfolding next_url
backslash_refused = refl

-- Browsers delete the tab, and leave the host.
tab_kept : next_url "/\t/evil.com" "/" ≡ "/\t/evil.com"
unfolding next_url
tab_kept = refl

path_kept : next_url "/admin?page=2" "/" ≡ "/admin?page=2"
unfolding next_url
path_kept = refl
