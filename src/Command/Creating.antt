-- ===== src/Command/Creating.antt =====
-- What cmd/create-workload-template/main.go leaves in the cluster.
use dockyards_flux.Base.{String, Option, none, some, ◌≡◌, ◌≢◌, refl, ap, sym, arith, ◌∙◌}
use dockyards_flux.Base.Outcome.{Result, ok, err, Outcome, done}
use dockyards_flux.Api.Constants.{workload_template_type_cue}
use dockyards_flux.Api.Objects.{Bytes, ObjectKey, WorkloadTemplate}
use dockyards_flux.Api.World.{object_key, stored_or, OperationResult, IsLawfulCreateOrPatch}
use dockyards_flux.Command.{
  Tool, Flags, template_name, new_template, set_source, create_formatted, create_parsed,
  create_connected, create_configured, create_workload_template,
}

-- The key of the template of these flags.
abbrev pub template_key : Flags → ObjectKey
template_key flags = record { namespace = flags.namespace; name = template_name flags.filename }

done_injective : {E A : Type 0} {a b : A} → ◌≡◌ {A = Outcome E A} (done a) (done b) → a ≡ b
done_injective e = ground arith

abbrev key_of : WorkloadTemplate → ObjectKey
key_of template = object_key template.meta

module _ {S E : Type 0} (tool : Tool S E) (stored : S → ObjectKey → Option WorkloadTemplate)
    (lawful : IsLawfulCreateOrPatch key_of stored tool.create_or_patch) where
  -- The file is parsed and formatted to these bytes.
  abbrev pub IsFormatted : String → Bytes → Type 0
  IsFormatted filename b =
      (file : tool.File) × (tool.parse_file filename ≡ ok file) × (tool.format file ≡ ok b)

  abbrev object_of : Flags → WorkloadTemplate
  object_of flags = new_template (template_name flags.filename) flags.namespace

  created_formatted :
      (flags : Flags) (b : Result E Bytes) (s s' : S) (op : OperationResult)
      → create_formatted tool flags b s ≡ (s', done op)
      → (source : Bytes) × (b ≡ ok source)
        × (tool.create_or_patch (object_of flags) (set_source source) s ≡ (s', done op))
  created_formatted flags (err e) s s' op h = ground arith
  created_formatted flags (ok b) s s' op h = (b, refl, h)

  created_parsed :
      (flags : Flags) (file : Result E tool.File) (s s' : S) (op : OperationResult)
      → create_parsed tool flags file s ≡ (s', done op)
      → (parsed : tool.File) × (source : Bytes) × (file ≡ ok parsed)
        × (tool.format parsed ≡ ok source)
        × (tool.create_or_patch (object_of flags) (set_source source) s ≡ (s', done op))
  created_parsed flags (err e) s s' op h = ground arith
  created_parsed flags (ok file) s s' op h =
      let (b, formatted, called) = created_formatted flags (tool.format file) s s' op h in
      (file, b, refl, formatted, called)

  created_connected :
      (flags : Flags) (e : Option E) (s s' : S) (op : OperationResult)
      → create_connected tool flags e s ≡ (s', done op)
      → (e ≡ none)
        × (b : Bytes) × IsFormatted flags.filename b
        × (tool.create_or_patch (object_of flags) (set_source b) s ≡ (s', done op))
  created_connected flags (some e) s s' op h = ground arith
  created_connected flags none s s' op h =
      let (file, b, parsed, formatted, called) =
        created_parsed flags (tool.parse_file flags.filename) s s' op h in
      (refl, b, (file, parsed, formatted), called)

  created_configured :
      (flags : Flags) (e : Option E) (s s' : S) (op : OperationResult)
      → create_configured tool flags e s ≡ (s', done op)
      → (b : Bytes) × IsFormatted flags.filename b
        × (tool.create_or_patch (object_of flags) (set_source b) s ≡ (s', done op))
  created_configured flags (some e) s s' op h = ground arith
  created_configured flags none s s' op h =
      let (none_failed, b, formatted, called) = created_connected flags tool.new_client s s' op h in
      (b, formatted, called)

  created :
      (flags : Flags) (s s' : S) (op : OperationResult)
      → create_workload_template tool flags s ≡ (s', done op)
      → (b : Bytes) × IsFormatted flags.filename b
        × (tool.create_or_patch (object_of flags) (set_source b) s ≡ (s', done op))
  unfolding create_workload_template
  created flags s s' op h = created_configured flags tool.get_config s s' op h

  -- Where the program ends without an error, the template of the flags' name and namespace has the
  -- type CUE and the formatted file as its source; the metadata of a template that was there is kept;
  -- and no other template is touched.
  pub create_workload_template-stored :
      (flags : Flags) (s s' : S) (op : OperationResult)
      → create_workload_template tool flags s ≡ (s', done op)
      → (b : Bytes) × IsFormatted flags.filename b
        × (stored s' (template_key flags)
            ≡ some (record {
              meta = (stored_or (object_of flags) (stored s (template_key flags))).meta;
              type = workload_template_type_cue;
              source = b;
            }))
        × ((other : ObjectKey) → other ≢ template_key flags → stored s' other ≡ stored s other)
  create_workload_template-stored flags s s' op h =
      let (b, formatted, called) = created flags s s' op h in
      let (after, filled, is_stored) = lawful.result_stored (object_of flags) _ s s' op called in
      (
        b,
        formatted,
        is_stored ∙ ap some (sym (done_injective filled)),
        λ other ne.
            sym (ap (λ x. stored x.0 other) called)
            ∙ lawful.others_kept (object_of flags) _ s other ne,
      )
