-- ===== src/Tests/Fields.antt =====
-- The theorems on the fields of a struct at concrete inputs.
use build_project.Prelude.{pos, some, [], ◌≡◌, refl}
use build_project.Sys.Ends.{Ends}
use build_project.Msdb.Select.{select_names}
use build_project.Tests.Systems.{serving, sample_row, serving-Finds, serving-Serves}
use build_project.Tests.Samples.{db_path, osd_sample}
use build_project.Msdb.Osd.{read_osd, osd_query}
use build_project.Msdb.Osd.Fields.{osd_of, read_osd-row}

read_osd-row_example :
    Ends
      (λ (r, s) _. (r ≡ pos 0) × (s ≡ some (osd_of sample_row osd_sample)))
      (read_osd
        (some db_path)
        (some osd_sample)
        (pos 1)
        (serving (select_names (osd_query (pos 1))))
        [])
read_osd-row_example =
    read_osd-row (serving (select_names (osd_query (pos 1)))) sample_row db_path osd_sample (pos 1)
      [] refl (serving-Finds (select_names (osd_query (pos 1))))
      (serving-Serves (select_names (osd_query (pos 1))))
