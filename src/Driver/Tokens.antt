-- ===== src/Driver/Tokens.antt =====
-- driver.py: `_org_token_file`, the mount-token file of a project's organization.
use manila_weka_driver.Prelude.{String, Option, some}
use manila_weka_driver.Text.{◌⁺⁺◌}
use manila_weka_driver.Text.Paths.{after_last, join_path}
use manila_weka_driver.Exceptions.{mount_error, message}
use manila_weka_driver.Exec.{Exec, pure, raise, catching_if, ◌>>=◌, ◌>>◌}
use manila_weka_driver.Weka.{Handle}
use manila_weka_driver.Posix.{is_os_error}
use manila_weka_driver.Driver.{Env, Driver, calling}
use manila_weka_driver.Driver.Names.{org_name}
use manila_weka_driver.Driver.Orgs.{org_client}

module _ {W : Type 0} (env : Env W) where
  -- `os.path.join(token_dir, os.path.basename('{}.json'.format(org_name)))`
  unfoldable pub token_path : Option String → String
  unfolding join_path after_last org_name
  token_path project_id =
      join_path env.config.auth_token_dir
        (after_last b'/' (org_name env.config project_id ⁺⁺ ".json"))

  -- The token in a temporary file that takes the place of the old one.
  unfoldable pub replace_token : Handle → (tmp path : String) → Exec W (Unit {0})
  replace_token client tmp path =
      catching_if is_os_error
        (do
          token ← env.weka.auth_token_payload client
          env.host.write_json tmp token
          env.host.replace tmp path)
        (λ e. do catching_if is_os_error (env.host.unlink tmp) (λ e'. pure tt); raise e)

  -- The `try` of `_org_token_file`.
  unfoldable pub write_token : Handle → String → Exec W String
  unfolding replace_token
  write_token client path = do
    env.host.make_dirs env.config.auth_token_dir (some 0o700)
    catching_if is_os_error (env.host.chmod env.config.auth_token_dir 0o700) (λ e. pure tt)
    tmp ← env.host.make_temp_file env.config.auth_token_dir ".tok-" ".tmp"
    replace_token client tmp path
    pure path

  -- `_org_token_file`
  unfoldable pub org_token_file : Option String → Exec (Driver W) String
  unfolding org_client calling write_token token_path message
  org_token_file project_id = do
    client ← org_client env project_id
    calling (
        catching_if is_os_error (write_token client (token_path project_id))
          (λ e. raise (mount_error ("failed to write auth token file: " ⁺⁺ message e))))
