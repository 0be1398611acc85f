-- ===== src/Ia/Item/Tests.antt =====
-- A form of a request to save a page.
use urlhero.Common.{true, false, some, codes}
use urlhero.Ia.Item.{SaveOptions, saved_page, save_form}
use urlhero.Ia.Item.Save.{Requests, save_form-Requests}

abbrev options : SaveOptions
options = record {
  capture_outlinks = true;
  capture_all = false;
  capture_screenshot = false;
  save_in_my_web_archive = true;
  email_result = false;
}

save_form-Requests_example :
    Requests (save_form (codes "https://short.im/") (some options)) saved_page options
save_form-Requests_example = save_form-Requests (codes "https://short.im/") options
