-- ===== src/Signer/Template.antt =====
-- What a job that the signer makes has for the manager.
use rh_kernel_module_managem.Prelude.{
  ℕ, String, ◌≡◌, ap, Bool, true, Option, none, some, List, [], ◌∷◌, ◌++◌, is_some, All, refl,
  arith,
}
use rh_kernel_module_managem.Prelude.Dict.{Dict, lookup}
use rh_kernel_module_managem.Api.{
  Sign, PodSpec, Job, Owner, ModuleLoaderData, Result, ok, err, panic, wrap_err, wrapv,
}
use rh_kernel_module_managem.Api.Errors.{◌>>=◌}
use rh_kernel_module_managem.Api.Errors.Inversion.{wrap_err_inv}
use rh_kernel_module_managem.DaemonSets.Wired.{IsMounted}
use rh_kernel_module_managem.Signer.Mounted.{IsMounted-spec_template}
use rh_kernel_module_managem.Signer.{
  SignerEnv, make_template, make_job_template, job_object, template_hash, spec_template,
  get_sa_image_repo_secret, finish, get_secret_data, get_hash_annotation_value, get_hash_value,
}
use rh_kernel_module_managem.Signer.Args.{sign_args}
use rh_kernel_module_managem.CaHelper.{CaConfigMap}
use rh_kernel_module_managem.JobHelper.{annotation, job_hash_annotation}

-- What `SetControllerReference` does: the owner becomes the controller, and no more.
pub record Owned (owner : Owner) (a b : Job) : Type 0 where
  pub namespace : b.namespace ≡ a.namespace
  pub labels : b.labels ≡ a.labels
  pub annotations : b.annotations ≡ a.annotations
  pub template : b.template ≡ a.template
  pub controller : b.controller ≡ some owner.uid

-- The number is the hash of the pods' template with the two keys that the settings name.
pub record HashOf (env : SignerEnv) (sign : Sign) (ns : String) (template : PodSpec) (hash : ℕ)
    : Type 0 where
  pub key_secret : String
  pub cert_secret : String
  pub private_key : String
  pub public_key : String
  pub key_named : sign.key_secret ≡ some key_secret
  pub cert_named : sign.cert_secret ≡ some cert_secret
  pub key_read : get_secret_data env key_secret "key" ns ≡ ok private_key
  pub cert_read : get_secret_data env cert_secret "cert" ns ≡ ok public_key
  pub hashed : env.hash_template template public_key private_key ≡ ok hash

-- What the manager needs of a job that was made.
pub record FromTemplate (env : SignerEnv) (mld : ModuleLoaderData) (labels : Dict String)
    (owner : Owner) (job : Job) : Type 0 where
  pub sign : Sign
  pub hash : ℕ
  pub settings : mld.sign ≡ some sign
  pub hash_of : HashOf env sign mld.namespace job.template hash
  pub printed : annotation job.annotations job_hash_annotation ≡ env.print hash
  pub namespace : job.namespace ≡ mld.namespace
  pub labelled : job.labels ≡ labels
  pub annotated : is_some job.annotations ≡ true
  pub controlled : job.controller ≡ some owner.uid
  pub wired : All (IsMounted job.template.volumes) job.template.containers

HashOf-template_hash :
    (env : SignerEnv) (sign : Sign) (ns : String) (template : PodSpec) (hash : ℕ)
    → template_hash env sign ns template ≡ ok hash
    → HashOf env sign ns template hash
unfolding template_hash get_hash_annotation_value get_hash_value
HashOf-template_hash env sign ns template hash h =
    by_secrets sign.key_secret sign.cert_secret refl refl
  where
    by_keys :
        (k c : String)
        → sign.key_secret ≡ some k
        → sign.cert_secret ≡ some c
        → (a b : Result String) → get_secret_data env k "key" ns ≡ a
        → get_secret_data env c "cert" ns ≡ b
        → HashOf env sign ns template hash
    by_keys k c e f (ok a) (ok b) p q =
        let wrapped : wrap_err (wrapv "could not hash job's spec template and dockefile")
              (env.hash_template template b a)
            ≡ ok hash =
          ground (arith, e, f, p, q, h) in
        record {
          key_secret = k;
          cert_secret = c;
          private_key = a;
          public_key = b;
          key_named = e;
          cert_named = f;
          key_read = p;
          cert_read = q;
          hashed = wrap_err_inv _ _ _ wrapped;
        }
    by_keys k c e f (ok a) (err x) p q = ground (arith, e, f, p, q, h)
    by_keys k c e f (ok a) panic p q = ground (arith, e, f, p, q, h)
    by_keys k c e f (err x) b p q = ground (arith, e, f, p, h)
    by_keys k c e f panic b p q = ground (arith, e, f, p, h)

    by_secrets :
        (o p : Option String)
        → sign.key_secret ≡ o
        → sign.cert_secret ≡ p
        → HashOf env sign ns template hash
    by_secrets (some k) (some c) e f =
        by_keys k c e f (get_secret_data env k "key" ns) (get_secret_data env c "cert" ns) refl refl
    by_secrets none p e f = ground (arith, e, h)
    by_secrets (some k) none e f = ground (arith, e, f, h)

module _ (env : SignerEnv)
    (owns : (owner : Owner) (a b : Job)
      → env.set_controller_reference owner a ≡ ok b
      → Owned owner a b)
    (mld : ModuleLoaderData) (labels : Dict String) (image : String) (push : Bool) (owner : Owner)
    (job : Job) where
  FromTemplate-finish :
      (sign : Sign) (template : PodSpec)
      → All (IsMounted template.volumes) template.containers
      → mld.sign ≡ some sign
      → finish env mld sign labels owner template ≡ ok job
      → FromTemplate env mld labels owner job
  unfolding finish job_object lookup
  FromTemplate-finish sign template w named h =
      by_hash (template_hash env sign mld.namespace template) refl h
    where
      by_hash :
          (r : Result ℕ)
          → template_hash env sign mld.namespace template ≡ r
          → (do
            hash ← wrap_err (wrapv "could not hash job's definitions") r
            wrap_err
                (wrapv "could not set the owner reference")
                (env.set_controller_reference owner (job_object env mld labels template hash)))
            ≡ ok job
          → FromTemplate env mld labels owner job
      by_hash (ok hash) e p =
          let o = owns owner _ job (wrap_err_inv _ _ _ p) in
          record {
            sign = sign;
            hash = hash;
            settings = named;
            hash_of = rw o.template (HashOf-template_hash env sign mld.namespace template hash e);
            printed = ap (λ a. annotation a job_hash_annotation) o.annotations;
            namespace = o.namespace;
            labelled = o.labels;
            annotated = ap is_some o.annotations;
            controlled = o.controller;
            wired = rw o.template w;
          }
      by_hash (err x) e p = cc
      by_hash panic e p = cc

  FromTemplate-make_template :
      (sign : Sign)
      → mld.sign ≡ some sign
      → make_template env mld sign labels image push owner ≡ ok job
      → FromTemplate env mld labels owner job
  unfolding make_template
  FromTemplate-make_template sign named h =
      by_steps (sign_args mld sign image push) (env.get_cluster_ca mld.namespace)
        (env.get_service_ca mld.namespace) (get_sa_image_repo_secret env mld "builder") h
    where
      by_steps :
          (a : Result (List String)) (c v : Result CaConfigMap) (s : Result (List String))
          → (do
            args ← a
            cluster_ca ← wrap_err (wrapv "could not get the cluster CA ConfigMap") c
            service_ca ← wrap_err (wrapv "could not get the serving CA ConfigMap") v
            builder_secrets ← wrap_err (wrapv "Failed to get secrets for service account") s
            finish env mld sign labels owner (
                spec_template env mld sign
                  (args ++ ("-secretdir" ∷ "/docker_config/" ∷ []))
                  cluster_ca
                  service_ca
                  builder_secrets))
            ≡ ok job
          → FromTemplate env mld labels owner job
      by_steps (ok a) (ok c) (ok v) (ok s) p =
          FromTemplate-finish sign _ (IsMounted-spec_template env mld sign _ c v s) named p
      by_steps (ok a) (ok c) (ok v) (err e) p = cc
      by_steps (ok a) (ok c) (ok v) panic p = cc
      by_steps (ok a) (ok c) (err e) s p = cc
      by_steps (ok a) (ok c) panic s p = cc
      by_steps (ok a) (err e) v s p = cc
      by_steps (ok a) panic v s p = cc
      by_steps (err e) c v s p = cc
      by_steps panic c v s p = cc

  -- Where the controller reference makes the owner the controller and changes nothing else, a job
  -- that is made has the module's namespace, the given labels, the hash of its template and keys and
  -- the owner as controller, and its container mounts only volumes that the pod has.
  pub FromTemplate-make_job_template :
      make_job_template env mld labels image push owner ≡ ok job
      → FromTemplate env mld labels owner job
  unfolding make_job_template
  FromTemplate-make_job_template h = by_sign mld.sign refl h
    where
      by_sign :
          (o : Option Sign)
          → mld.sign ≡ o
          → elim o [ none ↦ panic | some sign ↦ make_template env mld sign labels image push owner ]
            ≡ ok job
          → FromTemplate env mld labels owner job
      by_sign none e h = cc
      by_sign (some sign) e h = FromTemplate-make_template sign e h
